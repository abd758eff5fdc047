-- ===== src/Workers/Lost.antt =====
-- The loop of a `Start` behind which another `Start` came.
use yellowstone_common.Common.{
  ℕ, ◌<◌, ◌≡◌, ◌≢◌, sym, ap, subst, ◌∙◌, arith, true, false, some, inl, inr, Option-cases,
}
use yellowstone_common.Cache.Flights.{update}
use yellowstone_common.Cache.Flights.Roles.{update_off}
use yellowstone_common.Workers.{
  Loop, in_fn, in_select, returned, IntervalWorker, start, stop, call_cancel, Step, starts, stops,
  fn_returns, elapses, ends, Steps, rest, then,
}
use native.Mathlib.Decide.{ℕ_discrete}

-- A loop that runs, whose context is not done, and is not the one that `Stop` would cancel.
pub record IsLost (w : IntervalWorker) (i : ℕ) : Type 0 where
  pub earlier : i < w.started
  pub other : w.worker_cancel ≢ some i
  pub active : w.is_cancelled i ≡ false
  pub running : w.loops i ≢ returned

kept_running :
    (f : ℕ → Loop) (i j : ℕ) (p : Loop)
    → p ≢ returned
    → f i ≢ returned
    → update ℕ_discrete f j p i ≢ returned
kept_running f i j p good h = ground (arith, good, h)

Step-IsLost : {w x : IntervalWorker} (i : ℕ) → Step w x → IsLost w i → IsLost x i
unfolding start stop
Step-IsLost {w} i starts h = record {
  earlier = omega (arith, h.earlier);
  other = ground (arith, h.earlier);
  active = h.active;
  running = kept_running w.loops i w.started in_fn (λ e. ground (arith, e)) h.running;
}
Step-IsLost {w} i stops h = elim (Option-cases w.worker_cancel) [
  | inl e ↦ subst (λ x. IsLost x i) (sym (ap (λ o. call_cancel o w) e)) h
  | inr (j, e) ↦
      let next : IntervalWorker = record w {
        is_cancelled = update ℕ_discrete w.is_cancelled j true;
      } in
      let lost : IsLost next i = record {
        earlier = h.earlier;
        other = h.other;
        active =
            update_off ℕ_discrete w.is_cancelled j i true (λ same. h.other (e ∙ ap some same))
            ∙ h.active;
        running = h.running;
      } in
      subst (λ x. IsLost x i) (sym (ap (λ o. call_cancel o w) e)) lost
]
Step-IsLost {w} i (fn_returns j at) h = record {
  earlier = h.earlier;
  other = h.other;
  active = h.active;
  running = kept_running w.loops i j in_select (λ e. ground (arith, e)) h.running;
}
Step-IsLost {w} i (elapses j at) h = record {
  earlier = h.earlier;
  other = h.other;
  active = h.active;
  running = kept_running w.loops i j in_fn (λ e. ground (arith, e)) h.running;
}
Step-IsLost {w} i (ends j at done) h = record {
  earlier = h.earlier;
  other = h.other;
  active = h.active;
  running = λ e. h.running (
      sym
        (update_off ℕ_discrete w.loops j i returned (λ same. ground (arith, done, h.active, same)))
      ∙ e);
}

Steps-IsLost : {w x : IntervalWorker} (i : ℕ) → Steps w x → IsLost w i → IsLost x i
Steps-IsLost i rest h = h
Steps-IsLost i (then steps st) h = Step-IsLost i st (Steps-IsLost i steps h)

-- Where `Start` is called while the loop of an earlier call runs, and `Stop` has not cancelled it: whatever
-- follows, with any calls of `Stop`, that loop is never cancelled and never returns.
pub start-start :
    (w x : IntervalWorker) (i : ℕ)
    → w.worker_cancel ≡ some i
    → i < w.started
    → w.is_cancelled i ≡ false
    → w.loops i ≢ returned
    → Steps (start w) x
    → (x.is_cancelled i ≡ false) × (x.loops i ≢ returned)
unfolding start
start-start w x i cancels earlier active running steps =
    let first : IsLost (start w) i = record {
      earlier = omega arith;
      other = ground arith;
      active = active;
      running = kept_running w.loops i w.started in_fn (λ e. ground (arith, e)) running;
    } in
    let lost = Steps-IsLost i steps first in (lost.active, lost.running)
