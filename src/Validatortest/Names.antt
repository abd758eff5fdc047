-- ===== src/Validatortest/Names.antt =====
-- `funcShortName` of the names that the runtime gives to functions.
use yellowstone_common.Common.{
  ℕ, suc, ◌≡◌, ◌≢◌, refl, ap, ◌∙◌, arith, Bytes, none, some, [], ◌∷◌, ◌++◌, length, drop, All,
  All-append, All-weaken,
}
use yellowstone_common.Validatortest.{last_index, behind, func_short_name}

last_index_absent : (s : Bytes) (c : ℕ) → All (λ b. b ≢ c) s → last_index s c ≡ none
unfolding last_index
last_index_absent [] c h = refl
last_index_absent (b ∷ s) c h = ground (arith, h.0, last_index_absent s c h.1)

last_index-append :
    (p s : Bytes) (c : ℕ) → All (λ b. b ≢ c) s → last_index (p ++ c ∷ s) c ≡ some (length p)
unfolding last_index
last_index-append [] s c h = ground (arith, last_index_absent s c h)
last_index-append (b ∷ p) s c h = ground (arith, last_index-append p s c h)

drop-length : (p : Bytes) (c : ℕ) (s : Bytes) → drop (suc (length p)) (p ++ c ∷ s) ≡ s
drop-length [] c s = refl
drop-length (b ∷ p) c s = drop-length p c s

behind-append : (p s : Bytes) (c : ℕ) → All (λ b. b ≢ c) s → behind (p ++ c ∷ s) c ≡ s
unfolding behind
behind-append p s c h = rw (last_index-append p s c h, behind) (drop-length p c s)

behind_absent : (s : Bytes) (c : ℕ) → All (λ b. b ≢ c) s → behind s c ≡ s
unfolding behind
behind_absent s c h = rw (last_index_absent s c h, behind) refl

-- Of a path, a package and a name that are joined by `/` and `.`, where the package has no `/` and the
-- name has neither, `funcShortName` gives the name; and so it does without the path.
pub func_short_name-append :
    (path pkg name : Bytes)
    → All (λ b. b ≢ 47) pkg
    → All (λ b. (b ≢ 47) × (b ≢ 46)) name
    → (func_short_name (path ++ (47 ∷ (pkg ++ (46 ∷ name)))) ≡ name)
      × (func_short_name (pkg ++ (46 ∷ name)) ≡ name)
unfolding func_short_name
func_short_name-append path pkg name hp hn =
    let no_dot = All-weaken _ (λ b. b ≢ 46) name (λ b h. h.1) hn in
    let no_slash =
      All-append (λ b. b ≢ 47) pkg (46 ∷ name) hp
        (omega arith, All-weaken _ (λ b. b ≢ 47) name (λ b h. h.0) hn) in
    let last_part = behind-append pkg name 46 no_dot in
    (
      ap (λ s. behind s 46) (behind-append path (pkg ++ 46 ∷ name) 47 no_slash) ∙ last_part,
      ap (λ s. behind s 46) (behind_absent (pkg ++ 46 ∷ name) 47 no_slash) ∙ last_part,
    )
