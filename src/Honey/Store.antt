-- ===== src/Honey/Store.antt =====
-- What the package honey uses of the store (github.com/evrblk/monstera/store, which is not part of
-- this repository): the methods of a transaction, as a parameter, and what is relied on.
use yellowstone_common.Common.{ℕ, ◌≡◌, ◌≢◌, Bool, true, false, List, [], ◌∷◌, Bytes}
use yellowstone_common.Common.Outcome.{Outcome, ok, ◌>>=◌}

-- `store.ErrNotFound`, and every other error, of the store or of a callback, by a number.
pub data Error : Type 0 where
  not_found : Error
  other : ℕ → Error

abbrev pub Row : Type 0
Row = Bytes × Bytes

-- A callback of an iteration, over the variables `S` that it captures. It says whether to go on.
-- Where it fails, so does the iteration, and no caller reads those variables.
abbrev pub Visit : Type 0 → Type 0
Visit S = Bytes → Bytes → S → Outcome Error (Bool × S)

abbrev pub VisitKey : Type 0 → Type 0
VisitKey S = Bytes → S → Outcome Error (Bool × S)

-- `*store.Txn`. A write gives the transaction's new state.
pub record Store : Type 1 where
  pub Txn : Type 0
  pub get : Txn → Bytes → Outcome Error Bytes
  pub set : Txn → Bytes → Bytes → Outcome Error Txn
  pub delete : Txn → Bytes → Outcome Error Txn
  pub prefix_exists : Txn → Bytes → Outcome Error Bool
  pub each_prefix : (S : Type 0) → Txn → Bytes → Visit S → S → Outcome Error S
  pub each_prefix_keys : (S : Type 0) → Txn → Bytes → VisitKey S → S → Outcome Error S
  pub each_range : (S : Type 0) → Txn → Bytes → Bytes → Bool → Visit S → S → Outcome Error S

-- What follows a callback: the rest of the iteration, or its end.
abbrev pub go_on : {S : Type 0} → (S → Outcome Error S) → Bool × S → Outcome Error S
go_on rest (true, s) = rest s
go_on rest (false, s) = ok s

-- The callback on rows in order, until it says to stop or fails.
unfoldable pub visit : {S : Type 0} → Visit S → List Row → S → Outcome Error S
visit f [] s = ok s
visit f ((k, v) ∷ rows) s = f k v s >>= go_on (visit f rows)

-- Reading what was written, within a transaction.
pub record ReadsWrites (st : Store) : Type 0 where
  pub get-set : (t t' : st.Txn) (k v : Bytes) → st.set t k v ≡ ok t' → st.get t' k ≡ ok v
  pub get-set_ne :
      (t t' : st.Txn) (k j v : Bytes) → st.set t k v ≡ ok t' → j ≢ k → st.get t' j ≡ st.get t j
