-- ===== src/Metrics.antt =====
-- metrics/helpers.go: `FromGrpcError`. What `status.FromError` (google.golang.org/grpc) gives, a code and
-- a message, is the argument.
use yellowstone_common.Common.{ℕ, Bytes}

-- `codes.Code`
pub data Code : Type 0 where
  ok canceled unknown invalid_argument deadline_exceeded not_found already_exists
        permission_denied :
      Code
  resource_exhausted failed_precondition aborted out_of_range unimplemented internal unavailable :
      Code
  data_loss unauthenticated : Code
  undefined : ℕ → Code

pub record Status : Type 0 where
  pub code : Code
  pub message : Bytes

-- The texts of the categories; `no_error` is the empty one.
pub data Category : Type 0 where
  no_error timeout invalid_request internal not_found permission_denied resource_exhausted
        unauthenticated :
      Category

unfoldable pub category : Code → Category
category Code.ok = no_error
category Code.canceled = timeout
category Code.unknown = Category.internal
category Code.invalid_argument = invalid_request
category Code.deadline_exceeded = timeout
category Code.not_found = Category.not_found
category Code.already_exists = invalid_request
category Code.permission_denied = Category.permission_denied
category Code.resource_exhausted = Category.resource_exhausted
category Code.failed_precondition = invalid_request
category Code.aborted = invalid_request
category Code.out_of_range = invalid_request
category Code.unimplemented = Category.internal
category Code.internal = Category.internal
category Code.unavailable = Category.internal
category Code.data_loss = Category.internal
category Code.unauthenticated = Category.unauthenticated
category (Code.undefined n) = Category.internal

unfoldable pub from_grpc_error : Status → Category × Bytes
unfolding category
from_grpc_error st = (category st.code, st.message)
