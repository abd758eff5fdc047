-- ===== src/Workers/Stopped.antt =====
-- The loop of the last `Start` behind a `Stop`.
use yellowstone_common.Common.{
  ℕ, ◌≡◌, ◌≢◌, refl, sym, ap, subst, ◌∙◌, arith, true, some, none, ◌⊎◌, inl, inr, ◌<◌, Option,
}
use yellowstone_common.Cache.Flights.{update}
use yellowstone_common.Cache.Flights.Roles.{update_at, update_off}
use yellowstone_common.Workers.{
  Loop, absent, in_fn, in_select, returned, IntervalWorker, new_interval_worker, start, stop,
  call_cancel, Step, starts, stops, fn_returns, elapses, ends, Steps, rest, then,
}
use native.Mathlib.Decide.{ℕ_discrete}

-- A loop that has begun.
record HasBegun (w : IntervalWorker) (i : ℕ) : Type 0 where
  earlier : i < w.started
  there : w.loops i ≢ absent

kept_there :
    (f : ℕ → Loop) (i j : ℕ) (p : Loop)
    → p ≢ absent
    → f i ≢ absent
    → update ℕ_discrete f j p i ≢ absent
kept_there f i j p good h = ground (arith, good, h)

call_cancel-loops : (o : Option ℕ) (w : IntervalWorker) → (call_cancel o w).loops ≡ w.loops
call_cancel-loops none w = refl
call_cancel-loops (some i) w = refl

call_cancel-started : (o : Option ℕ) (w : IntervalWorker) → (call_cancel o w).started ≡ w.started
call_cancel-started none w = refl
call_cancel-started (some i) w = refl

call_cancel-worker_cancel :
    (o : Option ℕ) (w : IntervalWorker) → (call_cancel o w).worker_cancel ≡ w.worker_cancel
call_cancel-worker_cancel none w = refl
call_cancel-worker_cancel (some i) w = refl

-- A context that is done stays so.
call_cancel-is_cancelled :
    (o : Option ℕ) (w : IntervalWorker) (i : ℕ)
    → w.is_cancelled i ≡ true
    → (call_cancel o w).is_cancelled i ≡ true
call_cancel-is_cancelled none w i h = h
call_cancel-is_cancelled (some j) w i h = ground (arith, h)

Step-HasBegun : {w x : IntervalWorker} (i : ℕ) → Step w x → HasBegun w i → HasBegun x i
unfolding start stop
Step-HasBegun {w} i starts h = record {
  earlier = omega (arith, h.earlier);
  there = kept_there w.loops i w.started in_fn (λ e. ground (arith, e)) h.there;
}
Step-HasBegun {w} i stops h = record {
  earlier = subst (λ n. i < n) (sym (call_cancel-started w.worker_cancel w)) h.earlier;
  there = subst (λ f. f i ≢ absent) (sym (call_cancel-loops w.worker_cancel w)) h.there;
}
Step-HasBegun {w} i (fn_returns j at) h = record {
  earlier = h.earlier;
  there = kept_there w.loops i j in_select (λ e. ground (arith, e)) h.there;
}
Step-HasBegun {w} i (elapses j at) h = record {
  earlier = h.earlier;
  there = kept_there w.loops i j in_fn (λ e. ground (arith, e)) h.there;
}
Step-HasBegun {w} i (ends j at done) h = record {
  earlier = h.earlier;
  there = kept_there w.loops i j returned (λ e. ground (arith, e)) h.there;
}

Step-is_cancelled :
    {w x : IntervalWorker} (i : ℕ) → Step w x → w.is_cancelled i ≡ true → x.is_cancelled i ≡ true
unfolding start stop
Step-is_cancelled i starts h = h
Step-is_cancelled {w} i stops h = call_cancel-is_cancelled w.worker_cancel w i h
Step-is_cancelled i (fn_returns j at) h = h
Step-is_cancelled i (elapses j at) h = h
Step-is_cancelled i (ends j at done) h = h

Step-returned :
    {w x : IntervalWorker} (i : ℕ)
    → Step w x
    → i < w.started
    → w.loops i ≡ returned
    → x.loops i ≡ returned
unfolding start stop
Step-returned {w} i starts earlier h =
    update_off ℕ_discrete w.loops w.started i in_fn (λ e. omega (arith, e, earlier)) ∙ h
Step-returned {w} i stops earlier h = ap (λ f. f i) (call_cancel-loops w.worker_cancel w) ∙ h
Step-returned {w} i (fn_returns j at) earlier h =
    update_off ℕ_discrete w.loops j i in_select (λ e. ground (arith, e, at, h)) ∙ h
Step-returned {w} i (elapses j at) earlier h =
    update_off ℕ_discrete w.loops j i in_fn (λ e. ground (arith, e, at, h)) ∙ h
Step-returned {w} i (ends j at done) earlier h = ground (arith, h)

Steps-HasBegun : {w x : IntervalWorker} (i : ℕ) → Steps w x → HasBegun w i → HasBegun x i
Steps-HasBegun i rest h = h
Steps-HasBegun i (then steps st) h = Step-HasBegun i st (Steps-HasBegun i steps h)

Steps-is_cancelled :
    {w x : IntervalWorker} (i : ℕ) → Steps w x → w.is_cancelled i ≡ true → x.is_cancelled i ≡ true
Steps-is_cancelled i rest h = h
Steps-is_cancelled i (then steps st) h = Step-is_cancelled i st (Steps-is_cancelled i steps h)

Steps-returned :
    {w x : IntervalWorker} (i : ℕ)
    → Steps w x
    → HasBegun w i
    → w.loops i ≡ returned
    → x.loops i ≡ returned
Steps-returned i rest begun h = h
Steps-returned i (then steps st) begun h =
    Step-returned i st (Steps-HasBegun i steps begun).earlier (Steps-returned i steps begun h)

-- The context that `Stop` cancels is that of a loop that has begun.
worker_cancel-HasBegun :
    (w : IntervalWorker) (i : ℕ)
    → Steps new_interval_worker w
    → w.worker_cancel ≡ some i
    → HasBegun w i
unfolding start stop
worker_cancel-HasBegun w i rest e = absurd (cc e)
worker_cancel-HasBegun w i (then {x = x} steps starts) e = record {
  earlier = ground (arith, e);
  there = ground (arith, e);
}
worker_cancel-HasBegun w i (then {x = x} steps stops) e =
    Step-HasBegun i stops
      (worker_cancel-HasBegun x i steps (sym (call_cancel-worker_cancel x.worker_cancel x) ∙ e))
worker_cancel-HasBegun w i (then {x = x} steps (fn_returns j at)) e =
    Step-HasBegun i (fn_returns j at) (worker_cancel-HasBegun x i steps e)
worker_cancel-HasBegun w i (then {x = x} steps (elapses j at)) e =
    Step-HasBegun i (elapses j at) (worker_cancel-HasBegun x i steps e)
worker_cancel-HasBegun w i (then {x = x} steps (ends j at done)) e =
    Step-HasBegun i (ends j at done) (worker_cancel-HasBegun x i steps e)

Loop-cases : (p : Loop) → (p ≡ absent) ⊎ ((p ≡ in_fn) ⊎ ((p ≡ in_select) ⊎ (p ≡ returned)))
Loop-cases absent = inl refl
Loop-cases in_fn = inr (inl refl)
Loop-cases in_select = inr (inr (inl refl))
Loop-cases returned = inr (inr (inr refl))

stop-is_cancelled :
    (w : IntervalWorker) (i : ℕ) → w.worker_cancel ≡ some i → (stop w).is_cancelled i ≡ true
unfolding stop
stop-is_cancelled w i e =
    ap (λ o. (call_cancel o w).is_cancelled i) e ∙ update_at ℕ_discrete w.is_cancelled i true

-- A loop whose context is done comes to its end from wherever it stands.
comes_to_end :
    (w : IntervalWorker) (i : ℕ)
    → w.is_cancelled i ≡ true
    → w.loops i ≢ absent
    → (x : IntervalWorker) × Steps w x × (x.loops i ≡ returned)
comes_to_end w i done there =
    let waits : IntervalWorker = record w { loops = update ℕ_discrete w.loops i in_select } in
    let at : waits.loops i ≡ in_select = update_at ℕ_discrete w.loops i in_select in
    elim (Loop-cases (w.loops i)) [
      | inl e ↦ absurd (there e)
      | inr (inl e) ↦ (
        record waits { loops = update ℕ_discrete waits.loops i returned },
        then (then rest (fn_returns i e)) (ends i at done),
        update_at ℕ_discrete waits.loops i returned,
      )
      | inr (inr (inl e)) ↦ (
        record w { loops = update ℕ_discrete w.loops i returned },
        then rest (ends i e done),
        update_at ℕ_discrete w.loops i returned,
      )
      | inr (inr (inr e)) ↦ (w, rest, e)
    ]

-- Behind a `Stop`, whatever follows it: the context of the `Start` last before it stays done, the loop of that
-- `Start` can come to return, and once it has returned it runs no more.
pub start-stop :
    (w x : IntervalWorker) (i : ℕ)
    → Steps new_interval_worker w
    → w.worker_cancel ≡ some i
    → Steps (stop w) x
    → (x.is_cancelled i ≡ true)
      × ((y : IntervalWorker) × Steps x y × (y.loops i ≡ returned))
      × ((y : IntervalWorker) → x.loops i ≡ returned → Steps x y → y.loops i ≡ returned)
unfolding stop
start-stop w x i before cancels steps =
    let begun : HasBegun x i =
      Steps-HasBegun i steps (Step-HasBegun i stops (worker_cancel-HasBegun w i before cancels)) in
    let done : x.is_cancelled i ≡ true =
      Steps-is_cancelled i steps (stop-is_cancelled w i cancels) in
    (done, comes_to_end x i done begun.there, λ y h more. Steps-returned i more begun h)
