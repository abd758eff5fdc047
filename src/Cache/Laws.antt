-- ===== src/Cache/Laws.antt =====
-- What can be read from a cache after each operation.
use yellowstone_common.Common.{
  ℕ, zero, suc, ◌+◌, ◌≤◌, ◌≡◌, refl, sym, ◌∙◌, arith, ltb, if◌then◌else◌, Bool, true, false, Option,
  none, some, List, [], ◌∷◌, inl, inr, Bool-cases,
}
use yellowstone_common.Common.Int.{ℤ, pos, negsuc}
use yellowstone_common.Cache.{
  Item, Cache, load, store, remove, expiry, expired, get_item, get, set_with_ttl, sweep_rows, sweep,
}
use mathlib.Core.Logic.{ite, if_pos, if_neg}

module _ {ℓ} {K V : Type ℓ} (dec : Discrete K) where
  pub load-remove :
      (k j : K) (m : List (K × V)) → load dec j (remove dec k m) ≡ ite (dec k j) none (load dec j m)
  unfolding load remove
  load-remove k j [] = ground arith
  load-remove k j ((i, v) ∷ m) = ground (arith, load-remove k j m)

  pub load-store :
      (k j : K) (v : V) (m : List (K × V))
      → load dec j (store dec k v m) ≡ ite (dec k j) (some v) (load dec j m)
  unfolding load store
  load-store k j v m = ground (arith, load-remove k j m)

-- No key twice, as in a `sync.Map`.
module _ {ℓ} {K V : Type ℓ} (dec : Discrete K) where
  abbrev pub Unique : List (K × V) → Type ℓ
  Unique [] = Unit
  Unique ((k, v) ∷ m) = (load dec k m ≡ none) × Unique m

  -- The rows are all in the map `m`.
  abbrev Held : List (K × V) → List (K × V) → Type ℓ
  Held m [] = Unit
  Held m ((k, v) ∷ rows) = (load dec k m ≡ some v) × Held m rows

  Held-cons :
      (k : K) (v : V) (m rows : List (K × V))
      → load dec k m ≡ none
      → Held m rows
      → Held ((k, v) ∷ m) rows
  unfolding load
  Held-cons k v m [] e h = tt
  Held-cons k v m ((j, x) ∷ rows) e h = (ground arith, Held-cons k v m rows e h.1)

  Held-self : (m : List (K × V)) → Unique m → Held m m
  Held-self [] u = tt
  Held-self ((k, v) ∷ m) (fresh, u) =
      (unfold load in if_pos (dec k k) refl _ _, Held-cons k v m m fresh (Held-self m u))

  Held-remove :
      (j : K) (m rows : List (K × V))
      → load dec j rows ≡ none
      → Held m rows
      → Held (remove dec j m) rows
  unfolding load
  Held-remove j m [] e h = tt
  Held-remove j m ((i, x) ∷ rows) e h =
      (ground (arith, load-remove dec j i m), Held-remove j m rows (ground arith) h.1)

  pub Unique-remove : (j : K) (m : List (K × V)) → Unique m → Unique (remove dec j m)
  unfolding remove
  Unique-remove j [] u = tt
  Unique-remove j ((k, v) ∷ m) (fresh, u) = elim (dec k j) [
    | yes e ↦ rw (if_pos _ e) (Unique-remove j m u)
    | no ne ↦ rw (if_neg _ ne) (ground (arith, load-remove dec j k m), Unique-remove j m u)
  ]

  pub Unique-store : (j : K) (v : V) (m : List (K × V)) → Unique m → Unique (store dec j v m)
  unfolding store
  Unique-store j v m u = (ground (arith, load-remove dec j j m), Unique-remove j m u)

-- An item that is expired at a time is expired later.
pub expired-later {ℓ} :
    {V E : Type ℓ} (a b : ℕ) (it : Item V E) → a ≤ b → expired a it ≡ true → expired b it ≡ true
expired-later a b it h e = ground arith

-- Whether something stored at a time with a ttl is too old at a later time. A ttl of 0 or less is
-- without end.
abbrev pub outlived : ℕ → ℤ → ℕ → Bool
outlived at (pos zero) now = false
outlived at (pos (suc d)) now = ltb (at + suc d) now
outlived at (negsuc d) now = false

expired-expiry {ℓ} :
    {V E : Type ℓ} (at now : ℕ) (ttl : ℤ) (v : V) (e : Option E)
    → expired now (record { item_data = v; err = e; expires = expiry at ttl }) ≡ outlived at ttl now
unfolding expiry
expired-expiry at now (pos zero) v e = refl
expired-expiry at now (pos (suc d)) v e = ground arith
expired-expiry at now (negsuc d) v e = refl

-- What a look at the item `o` finds at a time.
abbrev pub live {ℓ} : {V E : Type ℓ} → ℕ → Option (Item V E) → Option (Item V E)
live now none = none
live now (some it) = if expired now it then none else some it

pub live-later {ℓ} :
    {V E : Type ℓ} (a b : ℕ) (o : Option (Item V E)) → a ≤ b → live a o ≡ none → live b o ≡ none
live-later a b none h e = refl
live-later a b (some it) h e = ground arith

module _ {ℓ} {K V E : Type ℓ} (dec : Discrete K) (zero_value : V) where
  pub get_item-live :
      (now : ℕ) (c : Cache K V E) (k : K)
      → get_item dec zero_value now c k ≡ live now (load dec k c.items)
  unfolding get_item
  get_item-live now c k = ground arith

  -- A row that the cleaning removes is one that no later look would have found.
  sweep_rows-live :
      (now later : ℕ) (rows m : List (K × Item V E)) (k : K)
      → now ≤ later
      → Unique dec rows
      → Held dec m rows
      → live later (load dec k (sweep_rows dec zero_value now rows m)) ≡ live later (load dec k m)
  unfolding sweep_rows
  sweep_rows-live now later [] m k h u held = refl
  sweep_rows-live now later ((j, it) ∷ rows) m k h (fresh, u) (here, held) =
      elim (Bool-cases (expired now it)) [
        | inl e ↦ rw e (
            sweep_rows-live now later rows (remove dec j m) k h u
              (Held-remove dec j m rows fresh held)
            ∙ ground (arith, load-remove dec j k m, expired-later now later it h e))
        | inr e ↦ rw e (sweep_rows-live now later rows m k h u held)
      ]

  pub Unique-sweep_rows :
      (now : ℕ) (rows m : List (K × Item V E))
      → Unique dec m
      → Unique dec (sweep_rows dec zero_value now rows m)
  unfolding sweep_rows
  Unique-sweep_rows now [] m u = u
  Unique-sweep_rows now ((j, it) ∷ rows) m u = elim (Bool-cases (expired now it)) [
    | inl e ↦ rw e (Unique-sweep_rows now rows _ (Unique-remove dec j m u))
    | inr e ↦ rw e (Unique-sweep_rows now rows m u)
  ]

  -- Cleaning at a time changes no look at the cache at that time or later, and keeps the keys
  -- unique.
  pub get_item-sweep :
      (now later : ℕ) (c : Cache K V E) (k : K)
      → now ≤ later
      → Unique dec c.items
      → (get_item dec zero_value later (sweep dec zero_value now c) k
          ≡ get_item dec zero_value later c k)
        × Unique dec (sweep dec zero_value now c).items
  unfolding sweep
  get_item-sweep now later c k h u = (
    get_item-live later (sweep dec zero_value now c) k
        ∙ sweep_rows-live now later c.items c.items k h u (Held-self dec c.items u)
        ∙ sym (get_item-live later c k),
    Unique-sweep_rows now c.items c.items u,
  )

  -- After `SetWithTTL` at a time, `Get` at any other finds the value unless the ttl is positive
  -- and has passed; every other key reads as before.
  pub get-set_with_ttl :
      (now later : ℕ) (c : Cache K V E) (k j : K) (v : V) (ttl : ℤ)
      → get dec zero_value later (set_with_ttl dec zero_value now c k v ttl) j
        ≡ ite
            (dec k j)
            (if outlived now ttl later then (zero_value, false) else (v, true))
            (get dec zero_value later c j)
  unfolding get get_item set_with_ttl
  get-set_with_ttl now later c k j v ttl =
      let it : Item V E = record { item_data = v; err = none; expires = expiry now ttl } in
      ground (arith, load-store dec k j it c.items, expired-expiry now later ttl v none)

  pub live_found :
      (now at : ℕ) (c : Cache K V E) (k : K) (v : V) (e : Option E) (ttl : ℤ)
      → load dec k c.items ≡ some (record { item_data = v; err = e; expires = expiry at ttl })
      → get_item dec zero_value now c k ≡ (
          if outlived at ttl now
          then none
          else some (record { item_data = v; err = e; expires = expiry at ttl }))
  live_found now at c k v e ttl h =
      get_item-live now c k ∙ rw h (ground (arith, expired-expiry at now ttl v e))

  pub missing-later :
      (a b : ℕ) (c : Cache K V E) (k : K)
      → a ≤ b
      → get_item dec zero_value a c k ≡ none
      → get_item dec zero_value b c k ≡ none
  missing-later a b c k h e =
      get_item-live b c k ∙ live-later a b (load dec k c.items) h (sym (get_item-live a c k) ∙ e)
