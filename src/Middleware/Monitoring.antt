-- ===== src/Middleware/Monitoring.antt =====
-- middleware/monitoring.go: `MonitoringMiddleware.Unary`. What it counts, observes and logs is a list of
-- events, in order.
mod Laws
mod Runs
use yellowstone_common.Common.{ℕ, Option, none, some, List, [], ◌∷◌, ◌++◌, Bytes}
use yellowstone_common.Metrics.{Status, Code, Category, from_grpc_error, no_error}

pub data Event : Type 0 where
  total_requests : Bytes → Event
  requests_duration : Bytes → ℕ → Event
  failed_requests : Bytes → Category → Event
  logged_info : Bytes → Code → ℕ → Option Bytes → Event
  logged_error : Bytes → Code → ℕ → Bytes → Event

-- What a handler does: it returns a response and perhaps an error, or it panics.
pub data Handled (R E : Type 0) : Type 0 where
  returned : R → Option E → Handled R E
  panicked : Handled R E

module _ {E : Type 0} (internal_error : E) where
  -- The `switch` on the category: the events, and the error that is returned in the end.
  abbrev pub settle : Bytes → ℕ → Code → Bytes → Option E → Category → List Event × Option E
  settle method duration code message err no_error =
      (logged_info method code duration none ∷ [], err)
  settle method duration code message err Category.internal = (
    failed_requests method Category.internal ∷ logged_error method code duration message ∷ [],
    some internal_error,
  )
  settle method duration code message err cat =
      (failed_requests method cat ∷ logged_info method code duration (some message) ∷ [], err)

module _ {E : Type 0} (from_error : Option E → Status) (internal_error : E) where
  -- The deferred function.
  unfoldable pub record_outcome : Bytes → ℕ → Option E → List Event × Option E
  record_outcome method duration err =
      let st = from_error err in
      let (cat, message) = from_grpc_error st in
      let (events, result) = settle internal_error method duration st.code message err cat in
      (requests_duration method duration ∷ events, result)

  -- A panic runs the deferred function with no error, and goes on. `method` is `path.Base` of the full
  -- method, and `duration` the time that the handler took.
  unfoldable pub unary : {R : Type 0} → Bytes → ℕ → Handled R E → List Event × Handled R E
  unfolding record_outcome
  unary method duration (returned resp err) =
      let (events, result) = record_outcome method duration err in
      (total_requests method ∷ events, returned resp result)
  unary method duration panicked =
      let (events, result) = record_outcome method duration none in
      (total_requests method ∷ events, panicked)
