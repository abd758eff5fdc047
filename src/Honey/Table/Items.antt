-- ===== src/Honey/Table/Items.antt =====
-- honey/tables.go: the numbers behind the keys of an index.
use yellowstone_common.Common.{
  ℕ, suc, zero, ◌+◌, ◌≤◌, ◌<◌, ◌^◌, ◌≡◌, refl, sym, ap, ◌∙◌, subst, arith, length, drop, map, some,
  List, [], ◌∷◌, ◌++◌, Bytes, All, All-append, drop_front, All-split, ◌↔◌,
}
use mathlib.Core.List.{map-append}
use yellowstone_common.Common.Compare.{has_prefix-append, has_prefix_front}
use yellowstone_common.Common.Outcome.{Outcome, ok, err, panic, or_panic}
use yellowstone_common.Honey.Store.{Error, Row}
use yellowstone_common.Honey.Table.Laws.{entries}
use yellowstone_common.Honey.Table.BigEndian.{bytes_to_uint64-uint64_to_bytes}
use yellowstone_common.Honey.Table.Uint64.{bytes_to_uint64, uint64_to_bytes, big_endian}

abbrev value_of : Outcome Error ℕ → ℕ
value_of (ok u) = u
value_of (err e) = 0
value_of panic = 0

abbrev pub number : Bytes → ℕ
number b = value_of (bytes_to_uint64 b)

-- The numbers behind the keys of an index for one `pk`.
abbrev pub items : Bytes → Bytes → List Row → List ℕ
items id pk rows = map (λ r. number (drop (length pk) r.0)) (entries id pk rows)

-- Every key under `pk` has at least the eight bytes of a number behind it.
abbrev pub Long : Bytes → Bytes → List Row → Type 0
Long id pk rows = All (λ r. length pk + 8 ≤ length r.0) (entries id pk rows)

big_endian-some : (n acc : ℕ) (b : Bytes) → n ≤ length b → (u : ℕ) × (big_endian n acc b ≡ some u)
unfolding big_endian
big_endian-some zero acc b h = (acc, refl)
big_endian-some (suc n) acc [] h = absurd (omega arith)
big_endian-some (suc n) acc (x ∷ b) h = big_endian-some n _ b (omega arith)

pub number_ok : (b : Bytes) → 8 ≤ length b → bytes_to_uint64 b ≡ ok (number b)
unfolding bytes_to_uint64
number_ok b h =
    let (u, e) = big_endian-some 8 0 b h in
    let known : bytes_to_uint64 b ≡ ok u = ap or_panic e in known ∙ ap ok (sym (ap value_of known))

pub length-drop_le : (n m : ℕ) (b : Bytes) → n + m ≤ length b → m ≤ length (drop n b)
length-drop_le zero m b h = omega arith
length-drop_le (suc n) m [] h = absurd (omega arith)
length-drop_le (suc n) m (x ∷ b) h = length-drop_le n m b (omega arith)

pub entries-append :
    (id pk : Bytes) (xs ys : List Row)
    → entries id pk (xs ++ ys) ≡ entries id pk xs ++ entries id pk ys
entries-append id pk [] ys = refl
entries-append id pk ((k, v) ∷ xs) ys = ground (arith, entries-append id pk xs ys)

pub items-append :
    (id pk : Bytes) (xs ys : List Row) → items id pk (xs ++ ys) ≡ items id pk xs ++ items id pk ys
items-append id pk xs ys =
    ap (map (λ r. number (drop (length pk) r.0))) (entries-append id pk xs ys)
    ∙ map-append (λ r. number (drop (length pk) r.0)) (entries id pk xs) (entries id pk ys)

-- The row of an item.
pub entries_of_item :
    (id pk enc v : Bytes) (rows : List Row)
    → entries id pk ((id ++ (pk ++ enc), v) ∷ rows) ≡ (pk ++ enc, v) ∷ entries id pk rows
entries_of_item id pk enc v rows =
    rw (has_prefix_front id (pk ++ enc) pk, has_prefix-append pk enc, drop_front id (pk ++ enc))
      refl

pub items_of_item :
    (id pk v : Bytes) (item : ℕ) (rows : List Row)
    → item < 2 ^ 64
    → items id pk ((id ++ (pk ++ uint64_to_bytes item), v) ∷ rows) ≡ item ∷ items id pk rows
items_of_item id pk v item rows h =
    ap (map (λ r. number (drop (length pk) r.0)))
      (entries_of_item id pk (uint64_to_bytes item) v rows)
    ∙ ap (λ b. number b ∷ items id pk rows) (drop_front pk (uint64_to_bytes item))
    ∙ ap (λ o. value_of o ∷ items id pk rows) (bytes_to_uint64-uint64_to_bytes item h)

pub Long-append :
    (id pk : Bytes) (xs ys : List Row) → Long id pk (xs ++ ys) ↔ (Long id pk xs × Long id pk ys)
Long-append id pk xs ys =
    let P : Row → Type 0 = λ r. length pk + 8 ≤ length r.0 in
    (
      λ h.
          All-split P (entries id pk xs) (entries id pk ys)
            (subst (All P) (entries-append id pk xs ys) h),
      λ h.
          subst (All P) (sym (entries-append id pk xs ys))
            (All-append P (entries id pk xs) (entries id pk ys) h.0 h.1),
    )

pub length-uint64_to_bytes : (u : ℕ) → length (uint64_to_bytes u) ≡ 8
unfolding uint64_to_bytes
length-uint64_to_bytes u = refl
