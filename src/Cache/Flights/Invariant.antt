-- ===== src/Cache/Flights/Invariant.antt =====
-- Which flights there are, read off where the callers stand.
use yellowstone_common.Common.{ℕ, Bool, ◌≡◌, refl, sym, ◌∙◌, ap, arith, Option, none, some}
use yellowstone_common.Cache.{Cache, flight_result}
use yellowstone_common.Cache.Loading.{outcome, after_load}
use yellowstone_common.Cache.Flights.{
  update, Pc, idle, looking, asking, waiting, leading, loading, storing, landing, done, System,
  wake, Step, call, hit, miss, lead, join, found, start, loaded, keep, land, leave, other, tick,
  Reach, begin, later,
}
use native.Mathlib.Decide.{ℕ_discrete}
use yellowstone_common.Cache.Flights.Roles.{
  in_flight, awaits, update-role, wake-in_flight, still_waits,
}

module _ {ℓ} {K V E T : Type ℓ} (dec : Discrete K) (dec_text : Discrete T) (zero_value : V)
    (is_nil : V → Bool) (text : K → T) where
  -- Every flight has its leader, every leader its flight, and every caller that waits a flight to wait for.
  pub record Inv (s : System K V E T) : Type ℓ where
    pub led :
        (t : T) (j : ℕ)
        → s.flights t ≡ some j
        → (k : K) × (in_flight (s.pc j) ≡ some k) × (text k ≡ t)
    pub flown : (i : ℕ) (k : K) → in_flight (s.pc i) ≡ some k → s.flights (text k) ≡ some i
    pub waits :
        (i : ℕ) (k : K) (l : ℕ) → awaits (s.pc i) ≡ some (k, l) → s.flights (text k) ≡ some l

  -- A step that changes no flight and nobody's part in one.
  Inv-roles :
      (s t : System K V E T)
      → t.flights ≡ s.flights
      → ((j : ℕ) → in_flight (t.pc j) ≡ in_flight (s.pc j))
      → ((j : ℕ) → awaits (t.pc j) ≡ awaits (s.pc j))
      → Inv s
      → Inv t
  Inv-roles s t same fs ws inv = record {
    led = λ u j e. let (k, f, g) = inv.led u j (cc (same, e)) in (k, fs j ∙ f, g);
    flown = λ i k e. cc (same, inv.flown i k (sym (fs i) ∙ e));
    waits = λ i k l e. cc (same, inv.waits i k l (sym (ws i) ∙ e));
  }

  Inv-quiet :
      (s : System K V E T) (c : Cache K V E) (i : ℕ) (q p : Pc K V E)
      → s.pc i ≡ q
      → in_flight p ≡ in_flight q
      → awaits p ≡ awaits q
      → Inv s
      → Inv (record s { cache = c; pc = update ℕ_discrete s.pc i p })
  Inv-quiet s c i q p at f w inv =
      Inv-roles s (record s { cache = c; pc = update ℕ_discrete s.pc i p }) refl
        (update-role ℕ_discrete in_flight s.pc i p (f ∙ sym (ap in_flight at)))
        (update-role ℕ_discrete awaits s.pc i p (w ∙ sym (ap awaits at))) inv

  Inv-lead :
      (s : System K V E T) (i : ℕ) (k : K)
      → s.pc i ≡ asking k
      → s.flights (text k) ≡ none
      → Inv s
      → Inv (record s {
        flights = update dec_text s.flights (text k) (some i);
        pc = update ℕ_discrete s.pc i (leading k);
      })
  Inv-lead s i k at free inv = record {
    led = λ t j e. elim (dec_text (text k) t) [
      | yes same ↦ (k, ground (arith, at, free), same)
      | no apart ↦ let (k', f, g) = inv.led t j (ground arith) in (k', ground (arith, at), g)
    ];
    flown = λ j k' e. elim (ℕ_discrete i j) [
      | yes same ↦ ground (arith, at, free, ap in_flight at)
      | no apart ↦ ground (arith, at, free, inv.flown j k')
    ];
    waits = λ j k' l e. elim (ℕ_discrete i j) [
      | yes same ↦ ground (arith, at)
      | no apart ↦ ground (arith, free, inv.waits j k' l)
    ];
  }

  Inv-join :
      (s : System K V E T) (i l : ℕ) (k : K)
      → s.pc i ≡ asking k
      → s.flights (text k) ≡ some l
      → Inv s
      → Inv (record s { pc = update ℕ_discrete s.pc i (waiting k l) })
  Inv-join s i l k at there inv = record {
    led = λ t j e.
        let (k', f, g) = inv.led t j e in
        (
          k',
          update-role ℕ_discrete in_flight s.pc i (waiting k l) (sym (ap in_flight at)) j ∙ f,
          g,
        );
    flown = λ j k' e.
        inv.flown j k' (
          sym (update-role ℕ_discrete in_flight s.pc i (waiting k l) (sym (ap in_flight at)) j)
          ∙ e);
    waits = λ j k' l' e. elim (ℕ_discrete i j) [
      | yes same ↦ ground (arith, there)
      | no apart ↦ ground (arith, inv.waits j k' l')
    ];
  }

  Inv-land :
      (s : System K V E T) (i : ℕ) (k : K) (r : V × Option E) (x : Option (V × Option E))
      → s.pc i ≡ landing k r
      → Inv s
      → Inv (record s {
        flights = update dec_text s.flights (text k) none;
        pc = update ℕ_discrete (λ j. wake i x (s.pc j)) i (done k x);
      })
  Inv-land s i k r x at inv = record {
    led = λ t j e. elim (dec_text (text k) t) [
      | yes same ↦ ground arith
      | no apart ↦
          let (k', f, g) = inv.led t j (ground arith) in
          (k', ground (arith, at, f, wake-in_flight i x (s.pc j)), g)
    ];
    flown = λ j k' e. elim (ℕ_discrete i j) [
      | yes same ↦ ground arith
      | no apart ↦
          ground
            (arith, inv.flown i k (ap in_flight at), inv.flown j k', wake-in_flight i x (s.pc j))
    ];
    waits = λ j k' l e. elim (ℕ_discrete i j) [
      | yes same ↦ ground arith
      | no apart ↦
          let (w, other_flight) = still_waits i x (s.pc j) k' l (ground arith) in
          ground (arith, inv.flown i k (ap in_flight at), inv.waits j k' l w)
    ];
  }

  pub Step-Inv :
      {s t : System K V E T} → Step dec dec_text zero_value is_nil text s t → Inv s → Inv t
  Step-Inv {s} (call i k at) inv = Inv-quiet s s.cache i idle (looking k) at refl refl inv
  Step-Inv {s} (hit i k it at e) inv =
      Inv-quiet s s.cache i (looking k) (done k (some (it.item_data, it.err))) at refl refl inv
  Step-Inv {s} (miss i k at e) inv = Inv-quiet s s.cache i (looking k) (asking k) at refl refl inv
  Step-Inv {s} (lead i k at e) inv = Inv-lead s i k at e inv
  Step-Inv {s} (join i l k at e) inv = Inv-join s i l k at e inv
  Step-Inv {s} (found i k it at e) inv =
      Inv-quiet s s.cache i (leading k) (landing k (it.item_data, it.err)) at refl refl inv
  Step-Inv {s} (start i k at e) inv = Inv-quiet s s.cache i (leading k) (loading k) at refl refl inv
  Step-Inv {s} (loaded i k r at) inv =
      Inv-quiet s s.cache i (loading k) (storing k r) at refl refl inv
  Step-Inv {s} (keep i k r at) inv =
      Inv-quiet s (after_load dec zero_value s.now s.cache k r) i (storing k r)
        (landing k (outcome r)) at refl refl inv
  Step-Inv {s} (land i k r at) inv = Inv-land s i k r (flight_result dec zero_value is_nil r) at inv
  Step-Inv {s} (leave i k r at) inv = Inv-quiet s s.cache i (done k r) idle at refl refl inv
  Step-Inv {s} (other op) inv = Inv-roles s _ refl (λ j. refl) (λ j. refl) inv
  Step-Inv {s} tick inv = Inv-roles s _ refl (λ j. refl) (λ j. refl) inv

  pub Reach-Inv :
      {c : Cache K V E} {now : ℕ} {s : System K V E T}
      → Reach dec dec_text zero_value is_nil text c now s
      → Inv s
  Reach-Inv begin = record {
    led = λ t j e. ground arith;
    flown = λ i k e. ground arith;
    waits = λ i k l e. ground arith;
  }
  Reach-Inv (later r st) = Step-Inv st (Reach-Inv r)
