-- ===== src/Cache/Flights/Roles.antt =====
-- What a caller has to do with the flights, where it stands.
use yellowstone_common.Common.{
  ℕ, Bool, true, false, ◌≡◌, refl, ◌∙◌, ap, arith, Option, none, some, ◌≢◌,
}
use yellowstone_common.Cache.{Loaded, value, failed}
use yellowstone_common.Cache.Flights.{
  update, Pc, idle, looking, asking, waiting, leading, loading, storing, landing, done, wake,
}
use mathlib.Core.Logic.{if_pos, if_neg}

-- The key of the flight that a caller leads.
abbrev pub in_flight {ℓ} : {K V E : Type ℓ} → Pc K V E → Option K
in_flight idle = none
in_flight (looking k) = none
in_flight (asking k) = none
in_flight (waiting k l) = none
in_flight (leading k) = some k
in_flight (loading k) = some k
in_flight (storing k x) = some k
in_flight (landing k x) = some k
in_flight (done k x) = none

-- The key and the leader that a caller waits for.
abbrev pub awaits {ℓ} : {K V E : Type ℓ} → Pc K V E → Option (K × ℕ)
awaits idle = none
awaits (looking k) = none
awaits (asking k) = none
awaits (waiting k l) = some (k, l)
awaits (leading k) = none
awaits (loading k) = none
awaits (storing k x) = none
awaits (landing k x) = none
awaits (done k x) = none

-- The key of a call that has not been left.
abbrev pub calls {ℓ} : {K V E : Type ℓ} → Pc K V E → Option K
calls idle = none
calls (looking k) = some k
calls (asking k) = some k
calls (waiting k l) = some k
calls (leading k) = some k
calls (loading k) = some k
calls (storing k x) = some k
calls (landing k x) = some k
calls (done k x) = some k

-- The key that a caller loads or stores, and whether `load` has not failed for it.
abbrev pub work {ℓ} : {K V E : Type ℓ} → Pc K V E → Option (K × Bool)
work idle = none
work (looking k) = none
work (asking k) = none
work (waiting k l) = none
work (leading k) = none
work (loading k) = some (k, true)
work (storing k (value v)) = some (k, true)
work (storing k (failed v e)) = some (k, false)
work (landing k x) = none
work (done k x) = none

module _ {ℓ κ} {A : Type ℓ} {B : Type κ} (dec : Discrete A) where
  pub update_at : (f : A → B) (a : A) (b : B) → update dec f a b a ≡ b
  update_at f a b = if_pos (dec a a) refl b (f a)

  pub update_off : (f : A → B) (a x : A) (b : B) → a ≢ x → update dec f a b x ≡ f x
  update_off f a x b h = if_neg (dec a x) h b (f x)

  pub update-role {μ} :
      {R : Type μ} (role : B → R) (f : A → B) (a : A) (b : B)
      → role b ≡ role (f a)
      → (x : A) → role (update dec f a b x) ≡ role (f x)
  update-role role f a b h x = elim (dec a x) [
    | yes e ↦ ap role (if_pos (dec a x) e b (f x)) ∙ h ∙ ap (λ y. role (f y)) e
    | no n ↦ ap role (update_off f a x b n)
  ]

module _ {ℓ} {K V E : Type ℓ} where
  pub wake-in_flight :
      (i : ℕ) (r : Option (V × Option E)) (p : Pc K V E) → in_flight (wake i r p) ≡ in_flight p
  wake-in_flight i r idle = refl
  wake-in_flight i r (looking k) = refl
  wake-in_flight i r (asking k) = refl
  wake-in_flight i r (waiting k l) = ground arith
  wake-in_flight i r (leading k) = refl
  wake-in_flight i r (loading k) = refl
  wake-in_flight i r (storing k x) = refl
  wake-in_flight i r (landing k x) = refl
  wake-in_flight i r (done k x) = refl

  pub still_waits :
      (i : ℕ) (r : Option (V × Option E)) (p : Pc K V E) (k : K) (l : ℕ)
      → awaits (wake i r p) ≡ some (k, l)
      → (awaits p ≡ some (k, l)) × (l ≢ i)
  still_waits i r (waiting j m) k l e = ground arith
  still_waits i r idle k l e = ground arith
  still_waits i r (looking j) k l e = ground arith
  still_waits i r (asking j) k l e = ground arith
  still_waits i r (leading j) k l e = ground arith
  still_waits i r (loading j) k l e = ground arith
  still_waits i r (storing j x) k l e = ground arith
  still_waits i r (landing j x) k l e = ground arith
  still_waits i r (done j x) k l e = ground arith

  pub work-in_flight :
      (p : Pc K V E) (k : K) (b : Bool) → work p ≡ some (k, b) → in_flight p ≡ some k
  work-in_flight (loading j) k b e = ground arith
  work-in_flight (storing j (value v)) k b e = ground arith
  work-in_flight (storing j (failed v x)) k b e = ground arith
  work-in_flight idle k b e = ground arith
  work-in_flight (looking j) k b e = ground arith
  work-in_flight (asking j) k b e = ground arith
  work-in_flight (waiting j l) k b e = ground arith
  work-in_flight (leading j) k b e = ground arith
  work-in_flight (landing j x) k b e = ground arith
  work-in_flight (done j x) k b e = ground arith

  pub storing-key :
      (j : K) (r : Loaded V E) (k : K) (b : Bool) → work (storing j r) ≡ some (k, b) → j ≡ k
  storing-key j (value v) k b e = ground arith
  storing-key j (failed v x) k b e = ground arith

  pub storing-work : (j : K) (r : Loaded V E) → (b : Bool) × (work (storing j r) ≡ some (j, b))
  storing-work j (value v) = (true, refl)
  storing-work j (failed v x) = (false, refl)

  pub well_stored :
      (j : K) (r : Loaded V E) (k : K)
      → work (storing j r) ≡ some (k, true)
      → (v : V) × (j ≡ k) × (r ≡ value v)
  well_stored j (value v) k e = (v, ground arith, refl)
  well_stored j (failed v x) k e = ground arith

  pub wake-work : (i : ℕ) (r : Option (V × Option E)) (p : Pc K V E) → work (wake i r p) ≡ work p
  wake-work i r idle = refl
  wake-work i r (looking k) = refl
  wake-work i r (asking k) = refl
  wake-work i r (waiting k l) = ground arith
  wake-work i r (leading k) = refl
  wake-work i r (loading k) = refl
  wake-work i r (storing k x) = refl
  wake-work i r (landing k x) = refl
  wake-work i r (done k x) = refl
