-- ===== src/Workers.antt =====
-- workers/interval.go: `IntervalWorker` with the loops that its `Start` begins, as a step relation. A context is
-- named by the number of the `Start` that made it, and so is its loop.
pub mod Lost
pub mod Stopped
mod Runs
use yellowstone_common.Common.{ℕ, ◌+◌, ◌≡◌, Bool, true, false, Option, none, some}
use yellowstone_common.Cache.Flights.{update}
use native.Mathlib.Decide.{ℕ_discrete}

-- Where a loop stands: in `fn`, in the `select`, or behind its return.
pub data Loop : Type 0 where
  absent : Loop
  in_fn : Loop
  in_select : Loop
  returned : Loop

-- `worker_cancel` names the context that it cancels; `started` counts the calls of `Start`.
pub record IntervalWorker : Type 0 where
  pub worker_cancel : Option ℕ
  pub started : ℕ
  pub is_cancelled : ℕ → Bool
  pub loops : ℕ → Loop

abbrev pub new_interval_worker : IntervalWorker
new_interval_worker = record {
  worker_cancel = none;
  started = 0;
  is_cancelled = λ i. false;
  loops = λ i. absent;
}

unfoldable pub start : IntervalWorker → IntervalWorker
start w = record {
  worker_cancel = some w.started;
  started = w.started + 1;
  is_cancelled = w.is_cancelled;
  loops = update ℕ_discrete w.loops w.started in_fn;
}

-- A call of `workerCancel`, if it is not nil.
abbrev pub call_cancel : Option ℕ → IntervalWorker → IntervalWorker
call_cancel none w = w
call_cancel (some i) w = record w { is_cancelled = update ℕ_discrete w.is_cancelled i true }

unfoldable pub stop : IntervalWorker → IntervalWorker
stop w = call_cancel w.worker_cancel w

pub data Step (w : IntervalWorker) : IntervalWorker → Type 0 where
  starts : Step w (start w)
  stops : Step w (stop w)
  fn_returns :
      (i : ℕ)
      → w.loops i ≡ in_fn
      → Step w (record w { loops = update ℕ_discrete w.loops i in_select })
  -- `time.After`, which the `select` may take though the context is done.
  elapses :
      (i : ℕ)
      → w.loops i ≡ in_select
      → Step w (record w { loops = update ℕ_discrete w.loops i in_fn })
  ends :
      (i : ℕ)
      → w.loops i ≡ in_select
      → w.is_cancelled i ≡ true
      → Step w (record w { loops = update ℕ_discrete w.loops i returned })

pub data Steps (w : IntervalWorker) : IntervalWorker → Type 0 where
  rest : Steps w w
  then : {x y : IntervalWorker} → Steps w x → Step x y → Steps w y
