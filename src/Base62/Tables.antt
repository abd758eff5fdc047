-- ===== src/Base62/Tables.antt =====
-- encoding/base62/base62.go: the two tables of an encoding.
use yellowstone_common.Common.{
  ℕ, zero, suc, ◌+◌, ◌%◌, ◌≤◌, ◌<◌, ◌≡◌, ◌≢◌, refl, sym, ap, ◌∙◌, arith, ◌==◌, Bool, true, false,
  not, ◌&&◌, [], ◌∷◌, ◌⊎◌, inl, inr, Bytes, length, All, some, get_elem?, replicate,
  get_elem?-set_self, get_elem?-set_ne, get_elem?-replicate, get_elem?_bound, length-set,
}
use yellowstone_common.Base62.{Encoding, has_newline, fill, new_encoding}
use yellowstone_common.Base62.Digits.{IsByte}
use native.Mathlib.Decide.{ℕ_discrete}

abbrev pub Distinct : Bytes → Type 0
Distinct [] = Unit
Distinct (c ∷ cs) = All (λ d. d ≢ c) cs × Distinct cs

absent : ℕ → Bytes → Bool
absent c [] = true
absent c (d ∷ ds) = not (d == c) && absent c ds

-- Whether all bytes are different, to be evaluated.
unfoldable pub is_distinct : Bytes → Bool
unfolding absent
is_distinct [] = true
is_distinct (c ∷ cs) = absent c cs && is_distinct cs

absent_sound : (c : ℕ) (cs : Bytes) → absent c cs ≡ true → All (λ d. d ≢ c) cs
unfolding absent
absent_sound c [] h = tt
absent_sound c (d ∷ ds) h = (ground arith, absent_sound c ds (ground arith))

pub is_distinct_sound : (cs : Bytes) → is_distinct cs ≡ true → Distinct cs
unfolding is_distinct
is_distinct_sound [] h = tt
is_distinct_sound (c ∷ cs) h =
    (absent_sound c cs (ground arith), is_distinct_sound cs (ground arith))

-- An encoding that `NewEncoding` makes from 62 distinct bytes.
pub record IsValid (enc : Encoding) : Type 0 where
  pub encodes : length enc.encode_table ≡ 62
  pub decodes : length enc.decode_map ≡ 256
  pub bytes : All IsByte enc.encode_table
  pub inverse :
      (x c : ℕ) → get_elem? enc.encode_table x ≡ some c → get_elem? enc.decode_map c ≡ some x
  pub known :
      (c x : ℕ)
      → get_elem? enc.decode_map c ≡ some x
      → (x ≡ 0xFF) ⊎ ((x < 62) × (get_elem? enc.encode_table x ≡ some c))

fill_absent :
    (i c : ℕ) (cs m : Bytes) → All (λ d. d ≢ c) cs → get_elem? (fill i cs m) c ≡ get_elem? m c
unfolding fill
fill_absent i c [] m h = refl
fill_absent i c (d ∷ cs) m (ne, h) = fill_absent (i + 1) c cs _ h ∙ get_elem?-set_ne m d c _ ne

fill_present :
    (i c k : ℕ) (cs m : Bytes)
    → Distinct cs
    → All IsByte cs
    → length m ≡ 256
    → i + length cs ≤ 256
    → get_elem? cs k ≡ some c
    → get_elem? (fill i cs m) c ≡ some (i + k)
unfolding fill
fill_present i c k [] m d b len fits e = absurd (ground arith)
fill_present i c zero (x ∷ cs) m d b len fits e =
    let same : x ≡ c = cc e in
    let value : i % 256 ≡ i + 0 = omega arith in
    rw (← same, fill_absent (i + 1) x cs _ d.0, get_elem?-set_self m x _ (omega arith), value)
fill_present i c (suc k) (x ∷ cs) m d b len fits e =
    fill_present (i + 1) c k cs _ d.1 b.1 (length-set m x _ ∙ len) (omega arith) e
    ∙ ap some (omega arith)

length-fill : (i : ℕ) (cs m : Bytes) → length (fill i cs m) ≡ length m
unfolding fill
length-fill i [] m = refl
length-fill i (c ∷ cs) m = length-fill (i + 1) cs _ ∙ length-set m c _

-- A value of the filled map was there before, or is the position of the byte.
fill_known :
    (i c x : ℕ) (cs m : Bytes)
    → All IsByte cs
    → length m ≡ 256
    → i + length cs ≤ 256
    → get_elem? (fill i cs m) c ≡ some x
    → (get_elem? m c ≡ some x) ⊎ ((k : ℕ) × (get_elem? cs k ≡ some c) × (x ≡ i + k))
unfolding fill
fill_known i c x [] m b len fits e = inl e
fill_known i c x (d ∷ cs) m b len fits e =
    elim (fill_known (i + 1) c x cs _ b.1 (length-set m d _ ∙ len) (omega arith) e) [
      | inr (k, at, value) ↦ inr (suc k, at, omega arith)
      | inl before ↦ elim (ℕ_discrete d c) [
        | no ne ↦ inl (rw (get_elem?-set_ne m d c _ ne) at before)
        | yes same ↦ inr (0, ap some same, ground (arith, get_elem?-set_self m d (i % 256), b.0))
      ]
    ]

-- The code makes a valid encoding of every alphabet of 62 distinct bytes with no CR or LF.
pub new_encoding-IsValid :
    (alphabet : Bytes)
    → length alphabet ≡ 62
    → has_newline alphabet ≡ false
    → All IsByte alphabet
    → Distinct alphabet
    → (enc : Encoding) × (new_encoding alphabet ≡ some enc)
      × (enc.encode_table ≡ alphabet)
      × IsValid enc
unfolding new_encoding
new_encoding-IsValid alphabet len lines bytes distinct =
    let blank : Bytes = replicate 256 0xFF in
    let filled : Bytes = fill 0 alphabet blank in
    (
      record { encode_table = alphabet; decode_map = filled },
      ground arith,
      refl,
      record {
        encodes = len;
        decodes = length-fill 0 alphabet blank;
        bytes = bytes;
        inverse = λ x c e.
            fill_present 0 c x alphabet blank distinct bytes refl (omega arith) e
            ∙ ap some (omega arith);
        known = λ c x e. elim (fill_known 0 c x alphabet blank bytes refl (omega arith) e) [
          | inl before ↦ inl (sym (get_elem?-replicate 256 c _ _ before))
          | inr (k, at, value) ↦
              let same : x ≡ k = omega arith in
              inr (omega (arith, get_elem?_bound alphabet k c at), rw same at)
        ];
      },
    )
