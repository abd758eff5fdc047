-- ===== src/Cache/Cleaning/Invariant.antt =====
-- A key that no call stores to while the cleaning is about to delete it.
use yellowstone_common.Common.{ℕ, ◌+◌, ◌≡◌, ◌≢◌, refl, sym, ap, subst, ◌∙◌, arith, true, none, some}
use yellowstone_common.Cache.{
  Item, Cache, load, expiry, expired, get_item, set_with_ttl, set_negative, delete, close,
}
use yellowstone_common.Cache.Laws.{
  load-store, load-remove, live, live-later, expired-later, get_item-live,
}
use yellowstone_common.Cache.History.{Op, set_at, fail_at, delete_at, sweep_at, step}
use yellowstone_common.Cache.Cleaning.{
  Janitor, selecting, ranging, deleting, returned, System, IsCall, Step, calls, closes, elapses,
  ticks, finds, deletes, ends, returns, Steps, rest, then,
}
use yellowstone_common.Cache.Cleaning.Quiet.{
  about_to_delete, IsPast, stores, IsPast-later, live-congruent,
}

module _ {ℓ} {K V E : Type ℓ} (dec : Discrete K) (zero_value : V) (k : K) where
  -- What holds of `k` as long as no call stores to it at a bad time.
  pub record Agrees (s : System K V E) : Type ℓ where
    pub config : s.cache.negative_ttl ≡ s.unswept.negative_ttl
    pub same : live s.clock (load dec k s.cache.items) ≡ live s.clock (load dec k s.unswept.items)
    pub dead : about_to_delete s.janitor ≡ some k → live s.clock (load dec k s.unswept.items) ≡ none
    pub past : IsPast s.clock s.janitor

  call-Agrees :
      (s : System K V E) (op : Op K V E)
      → IsCall s.clock op
      → (stores op ≡ some k → about_to_delete s.janitor ≢ some k)
      → Agrees s
      → Agrees (record s {
        cache = step dec zero_value op s.cache;
        unswept = step dec zero_value op s.unswept;
      })
  unfolding step set_with_ttl set_negative delete
  call-Agrees s (set_at t j v ttl) now quiet h =
      let it : Item V E = record { item_data = v; err = none; expires = expiry t ttl } in
      record {
        config = h.config;
        same = ground (
          arith,
          load-store dec j k it s.cache.items,
          load-store dec j k it s.unswept.items,
          h.same,
        );
        dead = λ e. elim (dec j k) [
          | yes same ↦ absurd (quiet (ap some same) e)
          | no apart ↦ ground (arith, load-store dec j k it s.unswept.items, h.dead e)
        ];
        past = h.past;
      }
  call-Agrees s (fail_at t j x) now quiet h =
      let it : Item V E = record {
        item_data = zero_value;
        err = some x;
        expires = expiry t s.cache.negative_ttl;
      } in
      let it' : Item V E = record {
        item_data = zero_value;
        err = some x;
        expires = expiry t s.unswept.negative_ttl;
      } in
      record {
        config = h.config;
        same = ground (
          arith,
          load-store dec j k it s.cache.items,
          load-store dec j k it' s.unswept.items,
          h.same,
          h.config,
        );
        dead = λ e. elim (dec j k) [
          | yes same ↦ absurd (quiet (ap some same) e)
          | no apart ↦ ground (arith, load-store dec j k it' s.unswept.items, h.dead e)
        ];
        past = h.past;
      }
  call-Agrees s (delete_at t j) now quiet h = record {
    config = h.config;
    same =
        ground
          (arith, load-remove dec j k s.cache.items, load-remove dec j k s.unswept.items, h.same);
    dead = λ e. ground (arith, load-remove dec j k s.unswept.items, h.dead e);
    past = h.past;
  }
  call-Agrees s (sweep_at t) now quiet h = absurd now

  -- A step of the goroutine that leaves the caches.
  moves-Agrees :
      (s : System K V E) (j : Janitor K)
      → IsPast s.clock j
      → (about_to_delete j ≡ some k → live s.clock (load dec k s.unswept.items) ≡ none)
      → Agrees s
      → Agrees (record s { janitor = j })
  moves-Agrees s j past dead h = record {
    config = h.config;
    same = h.same;
    dead = dead;
    past = past;
  }

  close_lem :
      (c : Cache K V E)
      → ((close dec zero_value c).items ≡ c.items)
        × ((close dec zero_value c).negative_ttl ≡ c.negative_ttl)
  unfolding close
  close_lem c = ground arith

  -- Whether a step stores to `k` while it is about to be deleted.
  abbrev pub IsQuiet : {s t : System K V E} → Step dec zero_value s t → Type ℓ
  IsQuiet {s} (calls op now) = stores op ≡ some k → about_to_delete s.janitor ≢ some k
  IsQuiet closes = Unit
  IsQuiet elapses = Unit
  IsQuiet (ticks at) = Unit
  IsQuiet (finds now j it at held old) = Unit
  IsQuiet (deletes now j at) = Unit
  IsQuiet (ends now at) = Unit
  IsQuiet (returns at closed) = Unit

  Step-Agrees :
      {s t : System K V E} (st : Step dec zero_value s t) → IsQuiet st → Agrees s → Agrees t
  unfolding delete
  Step-Agrees {s} (calls op now) quiet h = call-Agrees s op now quiet h
  Step-Agrees {s} closes quiet h =
      let (same, ttl) = close_lem s.cache in
      let (same', ttl') = close_lem s.unswept in
      record {
        config = ttl ∙ h.config ∙ sym ttl';
        same =
            ap (λ m. live s.clock (load dec k m)) same
            ∙ h.same
            ∙ sym (ap (λ m. live s.clock (load dec k m)) same');
        dead = λ e. ap (λ m. live s.clock (load dec k m)) same' ∙ h.dead e;
        past = h.past;
      }
  Step-Agrees {s} elapses quiet h = record {
    config = h.config;
    same =
        live-congruent s.clock (s.clock + 1) (load dec k s.cache.items) (load dec k s.unswept.items)
          (omega arith) h.same;
    dead =
        λ e. live-later s.clock (s.clock + 1) (load dec k s.unswept.items) (omega arith) (h.dead e);
    past = IsPast-later s.clock s.janitor h.past;
  }
  Step-Agrees {s} (ticks at) quiet h =
      moves-Agrees s (ranging s.clock) (omega arith) (λ e. ground (arith, e)) h
  Step-Agrees {s} (finds now j it at held old) quiet h =
      moves-Agrees s (deleting now j) (subst (IsPast s.clock) at h.past)
        (λ e.
          let row : load dec k s.cache.items ≡ some it =
            subst (λ x. load dec x s.cache.items ≡ some it) (cc e) held in
          let still : expired s.clock it ≡ true =
            expired-later now s.clock it (subst (IsPast s.clock) at h.past) old in
          sym h.same ∙ ap (live s.clock) row ∙ rw still)
        h
  Step-Agrees {s} (deletes now j at) quiet h = record {
    config = h.config;
    same = elim (dec j k) [
      | yes same ↦
          ground (
            arith,
            load-remove dec j k s.cache.items,
            h.dead (ap about_to_delete at ∙ ap some same),
          )
      | no apart ↦ ground (arith, load-remove dec j k s.cache.items, h.same)
    ];
    dead = λ e. ground (arith, e);
    past = subst (IsPast s.clock) at h.past;
  }
  Step-Agrees {s} (ends now at) quiet h = moves-Agrees s selecting tt (λ e. ground (arith, e)) h
  Step-Agrees {s} (returns at closed) quiet h =
      moves-Agrees s returned tt (λ e. ground (arith, e)) h

  -- No step stores to `k` while it is about to be deleted.
  abbrev pub AreQuiet : {s t : System K V E} → Steps dec zero_value s t → Type ℓ
  AreQuiet rest = Unit
  AreQuiet (then steps st) = AreQuiet steps × IsQuiet st

  Steps-Agrees :
      {s t : System K V E} (steps : Steps dec zero_value s t) → AreQuiet steps → Agrees s → Agrees t
  Steps-Agrees rest quiet h = h
  Steps-Agrees (then steps st) (quiet, last) h = Step-Agrees st last (Steps-Agrees steps quiet h)

  -- From a cache and the goroutine at its `select`: after any steps, of which none stores to a key between the
  -- look of the cleaning at an item of it and its delete, a look at the key finds what it would find if the cache
  -- were never cleaned.
  pub get_item-Steps :
      (c : Cache K V E) (clock : ℕ) (t : System K V E)
      (steps : Steps dec zero_value
        (record { cache = c; unswept = c; clock = clock; janitor = selecting })
        t)
      → AreQuiet steps
      → get_item dec zero_value t.clock t.cache k ≡ get_item dec zero_value t.clock t.unswept k
  get_item-Steps c clock t steps quiet =
      let h =
        Steps-Agrees steps quiet
          (record { config = refl; same = refl; dead = λ e. ground (arith, e); past = tt }) in
      get_item-live dec zero_value t.clock t.cache k
      ∙ h.same
      ∙ sym (get_item-live dec zero_value t.clock t.unswept k)
