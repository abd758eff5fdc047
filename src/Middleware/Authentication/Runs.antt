-- ===== src/Middleware/Authentication/Runs.antt =====
-- Requests at concrete inputs. A signature of the first kind is the body of the key and the method.
use yellowstone_common.Common.{
  ℕ, ◌≡◌, refl, if◌then◌else◌, true, false, Option, none, some, List, [], ◌∷◌, ◌++◌, Bytes,
}
use yellowstone_common.Common.Compare.{equal}
use yellowstone_common.Common.Int.{ℤ, pos}
use yellowstone_common.Common.Text.{codes}
use yellowstone_common.Middleware.Authentication.{
  Authn, new_authentication_middleware, signature_key, api_key_key, credentials, get_api_key,
  verify_signature, unary,
}
use yellowstone_common.Middleware.Authentication.Requests.{
  Request, cached_keys, EverSigned, unary-EverSigned,
}
use yellowstone_common.Middleware.Authentication.Laws.{IsFaithful}

abbrev authn : Authn ℕ ℤ
authn = record {
  verify_alfa_signature =
      λ signature timestamp now body message service method. equal signature (body ++ method);
  verify_bravo_signature = λ signature timestamp now body message service method. false;
  get_date_of_timestamp = λ timestamp. timestamp;
  hash_bravo_secret_with_date = λ body date. none;
}

abbrev key_id : Bytes
key_id = codes "key_alfa_1"

abbrev read_file : Bytes → Option Bytes
read_file id = if equal id key_id then some (5 ∷ []) else none

abbrev atoi : Bytes → Option ℤ
atoi text = some (pos 9)

abbrev metadata : Bytes → List Bytes
metadata k =
    if equal k signature_key
    then (5 ∷ 8 ∷ []) ∷ []
    else (if equal k api_key_key then key_id ∷ [] else (57 ∷ []) ∷ [])

nothing_cached : IsFaithful read_file []
nothing_cached = record { own_file = λ id key e. absurd (cc e) }

called : (unary authn (77 ∷ []) read_file atoi [] (some metadata) (some 3) 10 (8 ∷ [])).1 ≡ true
unfolding unary credentials get_api_key verify_signature
called = refl

forged : (unary authn (77 ∷ []) read_file atoi [] (some metadata) (some 3) 10 (9 ∷ [])).1 ≡ false
unfolding unary credentials get_api_key verify_signature
forged = refl

-- A request, and the same one when the file of the key is gone.
abbrev first_request : Request ℕ
first_request = record {
  read_file = read_file;
  metadata = some metadata;
  message = some 3;
  now = 10;
  method = 8 ∷ [];
}

abbrev second_request : Request ℕ
second_request = record first_request { read_file = λ id. none }

called_again :
    (unary authn
      (77 ∷ [])
      second_request.read_file
      atoi
      (cached_keys authn (77 ∷ []) atoi (first_request ∷ []))
      (some metadata)
      (some 3)
      10
      (8 ∷ [])).1
    ≡ true
unfolding unary credentials get_api_key verify_signature new_authentication_middleware
called_again = refl

unary-EverSigned_example :
    EverSigned authn (77 ∷ []) atoi metadata second_request (first_request ∷ [])
unary-EverSigned_example =
    unary-EverSigned authn (77 ∷ []) atoi (first_request ∷ []) second_request metadata called_again
