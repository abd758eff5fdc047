-- ===== src/Middleware/Monitoring/Laws.antt =====
-- What a monitored request counts and returns.
use yellowstone_common.Common.{ℕ, ◌+◌, ◌≡◌, refl, ap, ◌∙◌, Option, none, some, List, [], ◌∷◌, Bytes}
use yellowstone_common.Metrics.{
  Status, Code, Category, from_grpc_error, category, no_error, timeout, invalid_request,
}
use yellowstone_common.Middleware.Monitoring.{
  Event, total_requests, requests_duration, failed_requests, logged_info, logged_error, returned,
  panicked, settle, record_outcome, unary,
}

-- How often each metric is incremented or observed, and how many lines are logged.
pub record Counts : Type 0 where
  pub total : ℕ
  pub durations : ℕ
  pub failed : ℕ
  pub lines : ℕ

abbrev pub counts : List Event → Counts
counts [] = record { total = 0; durations = 0; failed = 0; lines = 0 }
counts (total_requests m ∷ events) = let c = counts events in record c { total = c.total + 1 }
counts (requests_duration m d ∷ events) =
    let c = counts events in record c { durations = c.durations + 1 }
counts (failed_requests m k ∷ events) = let c = counts events in record c { failed = c.failed + 1 }
counts (logged_info m k d t ∷ events) = let c = counts events in record c { lines = c.lines + 1 }
counts (logged_error m k d t ∷ events) = let c = counts events in record c { lines = c.lines + 1 }

success : {c : Code} → c ≡ Code.ok → category c ≡ no_error
unfolding category
success e = ap category e

-- A request is a failure where its error has a category.
abbrev pub failures : Category → ℕ
failures no_error = 0
failures _ = 1

-- The error that the caller gets.
abbrev pub shown {ℓ} : {E : Type ℓ} → E → Category → Option E → Option E
shown internal_error Category.internal err = some internal_error
shown internal_error _ err = err

module _ {E : Type 0} (internal_error : E) where
  counts-settle :
      (method : Bytes) (duration : ℕ) (code : Code) (message : Bytes) (err : Option E)
      (kind : Category)
      → let (events, result) = settle internal_error method duration code message err kind in
        (counts (total_requests method ∷ requests_duration method duration ∷ events)
          ≡ record { total = 1; durations = 1; failed = failures kind; lines = 1 })
        × (result ≡ shown internal_error kind err)
  counts-settle method duration code message err no_error = (refl, refl)
  counts-settle method duration code message err timeout = (refl, refl)
  counts-settle method duration code message err invalid_request = (refl, refl)
  counts-settle method duration code message err Category.internal = (refl, refl)
  counts-settle method duration code message err Category.not_found = (refl, refl)
  counts-settle method duration code message err Category.permission_denied = (refl, refl)
  counts-settle method duration code message err Category.resource_exhausted = (refl, refl)
  counts-settle method duration code message err Category.unauthenticated = (refl, refl)

module _ {R E : Type 0} (from_error : Option E → Status) (internal_error : E) where
  -- A request whose handler returns counts once, is timed once and logs one line; it counts as failed
  -- exactly if its error has a category. The response is the handler's, and so is the error, but for an
  -- internal one, of which the caller gets the same error whatever it was.
  pub unary-returned :
      (method : Bytes) (duration : ℕ) (resp : R) (err : Option E)
      → let kind = category (from_error err).code in
        let (events, result) =
          unary from_error internal_error method duration (returned resp err) in
        (counts events ≡ record { total = 1; durations = 1; failed = failures kind; lines = 1 })
        × (result ≡ returned resp (shown internal_error kind err))
  unfolding unary record_outcome from_grpc_error
  unary-returned method duration resp err =
      let st = from_error err in
      let (counted, same) =
        counts-settle internal_error method duration st.code st.message err (category st.code) in
      (counted, ap (λ e. returned resp e) same)

  -- Where no error is no error to `status.FromError`, a request whose handler panics counts once, is timed
  -- once and logs one line, and never counts as failed.
  pub unary-panicked :
      (method : Bytes) (duration : ℕ)
      → (from_error none).code ≡ Code.ok
      → let (events, result) = unary from_error internal_error {R = R} method duration panicked in
        (counts events ≡ record { total = 1; durations = 1; failed = 0; lines = 1 })
        × (result ≡ panicked)
  unfolding unary record_outcome from_grpc_error
  unary-panicked method duration no_code =
      let st = from_error none in
      let (counted, same) =
        counts-settle internal_error method duration st.code st.message none (category st.code) in
      (
        counted
            ∙ ap (λ c. record { total = 1; durations = 1; failed = failures c; lines = 1 })
                (success no_code),
        refl,
      )
