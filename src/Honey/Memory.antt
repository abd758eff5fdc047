-- ===== src/Honey/Memory.antt =====
-- A store in memory, for the concrete runs.
use yellowstone_common.Common.{
  ◌≡◌, refl, sym, ap, subst, if◌then◌else◌, not, is_empty, List, [], ◌∷◌, Bytes, false, All,
  All-weaken, reverse_onto, reverse_onto-reverse_onto, ◌∙◌,
}
use mathlib.Core.List.{append-nil}
use yellowstone_common.Common.Compare.{equal, equal_self, equal_ne, equal_apart}
use yellowstone_common.Common.Outcome.{Outcome, ok, err}
use yellowstone_common.Honey.Store
use yellowstone_common.Honey.Store.{Store, Row, visit, not_found, ReadsWrites}
use yellowstone_common.Honey.Table.Walk.{Ranges}
use yellowstone_common.Honey.Table.Laws.{under, Iterates}

-- The rows by age, the newest first; a lookup takes the first. Iterations visit them in this order, and
-- those of ranges from the row of one bound on, within the prefix that the other is.
abbrev pub look : List Row → Bytes → Outcome Store.Error Bytes
look [] k = err not_found
look ((j, v) ∷ rows) k = let rest = look rows k in if equal k j then ok v else rest

abbrev pub without : Bytes → List Row → List Row
without k [] = []
without k ((j, v) ∷ rows) = let rest = without k rows in if equal k j then rest else (j, v) ∷ rest

-- The rows from the first with a key on.
abbrev from_key : Bytes → List Row → List Row
from_key key [] = []
from_key key ((j, w) ∷ rows) =
    let rest = from_key key rows in if equal j key then (j, w) ∷ rows else rest

abbrev pub memory : Store
memory = record {
  Txn = List Row;
  get = look;
  set = λ t k v. ok ((k, v) ∷ t);
  delete = λ t k. ok (without k t);
  prefix_exists = λ t p. ok (not (is_empty (under p t)));
  each_prefix = λ S t p f s. visit f (under p t) s;
  each_prefix_keys = λ S t p f s. visit (λ k v. f k) (under p t) s;
  each_range = λ S t lower upper reverse f s.
      visit f
        (if reverse
          then from_key upper (reverse_onto (under lower t) [])
          else from_key lower (under upper t))
        s;
}

abbrev pub succeed : List Row → Outcome Store.Error (List Row)
succeed t = ok t

pub written : (t t' : List Row) → succeed t ≡ succeed t' → t ≡ t'
written t t' e = cc e

pub memory_laws : ReadsWrites memory
memory_laws = record {
  get-set = λ t t' k v e.
      subst (λ x. look x k ≡ ok v) (written ((k, v) ∷ t) t' e)
        (ap (λ b. if b then ok v else look t k) (equal_self k));
  get-set_ne = λ t t' k j v e ne.
      subst (λ x. look x j ≡ look t j) (written ((k, v) ∷ t) t' e)
        (ap (λ b. if b then ok v else look t j) (equal_ne j k ne));
}

pub commits : (t t' : List Row) (k : Bytes) → succeed t ≡ ok t' → look t' k ≡ look t k
commits t t' k e = ap (λ x. look x k) (sym (cc e))

pub memory_Iterates : Iterates memory (λ t. t)
memory_Iterates = record { each_prefix = λ S t p f s. refl }

from_key_past :
    (key : Bytes) (before rows : List Row)
    → All (λ r. equal r.0 key ≡ false) before
    → from_key key (reverse_onto before rows) ≡ from_key key rows
from_key_past key [] rows h = refl
from_key_past key ((j, w) ∷ before) rows (here, h) =
    from_key_past key before ((j, w) ∷ rows) h
    ∙ ap (λ b. if b then (j, w) ∷ rows else from_key key rows) here

from_key_here : (key v : Bytes) (rows : List Row) → from_key key ((key, v) ∷ rows) ≡ (key, v) ∷ rows
from_key_here key v rows =
    ap (λ b. if b then (key, v) ∷ rows else from_key key rows) (equal_self key)

pub memory_Ranges : Ranges memory (λ t. t)
memory_Ranges = record {
  forward = λ S t id key v before after f s there other.
      ap (λ rows. visit f rows s)
        (ap (from_key key) there
          ∙ from_key_past key before ((key, v) ∷ after) other
          ∙ from_key_here key v after);
  backward = λ S t id key v before after f s there alone.
      ap (λ rows. visit f rows s)
        (ap (λ rows. from_key key (reverse_onto rows [])) there
          ∙ ap (from_key key) (reverse_onto-reverse_onto before ((key, v) ∷ after) [])
          ∙ ap (λ xs. from_key key (reverse_onto after ((key, v) ∷ xs))) (append-nil before)
          ∙ from_key_past key after ((key, v) ∷ before)
              (All-weaken _ _ after (λ r h. equal_apart r.0 key h) alone)
          ∙ from_key_here key v before);
}
