-- ===== src/Middleware/Monitoring/Runs.antt =====
-- Monitored requests at concrete inputs. Errors are numbers: 1 is not found, and the others are internal.
use yellowstone_common.Common.{ℕ, zero, suc, ◌≡◌, refl, Option, none, some, List, [], ◌∷◌}
use yellowstone_common.Metrics.{Status, Code, Category, category, from_grpc_error}
use yellowstone_common.Middleware.Monitoring.{
  Event, total_requests, requests_duration, failed_requests, logged_error, logged_info, returned,
  panicked, record_outcome, unary,
}
use yellowstone_common.Middleware.Monitoring.Laws.{counts, unary-returned, unary-panicked}

abbrev status : Option ℕ → Status
status none = record { code = Code.ok; message = [] }
status (some zero) = record { code = Code.unknown; message = 48 ∷ [] }
status (some (suc zero)) = record { code = Code.not_found; message = 49 ∷ [] }
status (some (suc (suc n))) = record { code = Code.internal; message = 50 ∷ [] }

-- The secret message of error 7 is logged, and the caller gets the error 500.
abbrev events : List Event
events =
    total_requests (77 ∷ [])
    ∷ requests_duration (77 ∷ []) 3
    ∷ failed_requests (77 ∷ []) Category.internal
    ∷ logged_error (77 ∷ []) Code.internal 3 (50 ∷ [])
    ∷ []

unary-returned_example :
    (counts events ≡ record { total = 1; durations = 1; failed = 1; lines = 1 })
    × ((unary status 500 {R = ℕ} (77 ∷ []) 3 (returned 9 (some 7))).1 ≡ returned 9 (some 500))
unfolding unary record_outcome from_grpc_error category
unary-returned_example = unary-returned {R = ℕ} status 500 (77 ∷ []) 3 9 (some 7)

-- A panic is logged as a success.
abbrev panic_events : List Event
panic_events =
    total_requests (77 ∷ [])
    ∷ requests_duration (77 ∷ []) 3
    ∷ logged_info (77 ∷ []) Code.ok 3 none
    ∷ []

unary-panicked_example :
    (counts panic_events ≡ record { total = 1; durations = 1; failed = 0; lines = 1 })
    × ((unary status 500 {R = ℕ} (77 ∷ []) 3 panicked).1 ≡ panicked)
unfolding unary record_outcome from_grpc_error category
unary-panicked_example = unary-panicked {R = ℕ} status 500 (77 ∷ []) 3 refl
