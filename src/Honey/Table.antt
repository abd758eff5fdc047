-- ===== src/Honey/Table.antt =====
-- honey/tables.go: the base `table`. A method is a function of the transaction. `nil` bounds and
-- tokens are `none`.
pub mod Pages
pub mod Laws
pub mod BigEndian
pub mod Lists
pub mod Items
pub mod Indexes
pub mod Steps
pub mod Walk
pub mod Traverse
pub mod Binary
pub mod Strings
pub mod Uint64
pub mod Uint32
pub mod OneToManyUint64
pub mod OneToManySorted
pub mod Sorted
pub mod Runs
use yellowstone_common.Common.{
  ℕ, ◌≡◌, Bool, true, false, if◌then◌else◌, leb, ◌==◌, is_empty, length, drop, Option, none, some,
  List, [], ◌∷◌, ◌++◌, Bytes,
}
use yellowstone_common.Common.Int.{ℤ, pos, negsuc}
use yellowstone_common.Common.Outcome.{Outcome, ok, err, panic, ◌>>=◌}
use yellowstone_common.Honey.Store.{Error, Store, Visit, VisitKey}

-- `utils.ConcatBytes` (github.com/evrblk/monstera/utils), at the types it is called with here.
pub record Utils : Type 0 where
  pub concat_bytes : Bytes → Bytes → Bytes
  pub concat_uint64 : Bytes → ℕ → Bytes

-- It concatenates its arguments.
pub record Concats (utils : Utils) : Type 0 where
  pub bytes : (a b : Bytes) → utils.concat_bytes a b ≡ a ++ b

pub record PaginationToken : Type 0 where
  pub key : Bytes
  pub reverse : Bool

pub record Table : Type 0 where
  pub table_id : Bytes

unfoldable pub new_table : Bytes → Outcome Error Table
new_table table_id = if is_empty table_id then panic else ok (record { table_id = table_id })

-- `b[n:]`
unfoldable pub slice_from : ℕ → Bytes → Outcome Error Bytes
slice_from n b = if leb n (length b) then ok (drop n b) else panic

-- A callback on the rows of the table, from one on the rows of the store.
unfoldable pub strip : {S : Type 0} → Bytes → Visit S → Visit S
unfolding slice_from
strip table_id f k v s = slice_from (length table_id) k >>= λ key. f key v s

unfoldable pub strip_key : {S : Type 0} → Bytes → VisitKey S → VisitKey S
unfolding slice_from
strip_key table_id f k s = slice_from (length table_id) k >>= λ key. f key s

module _ (st : Store) (utils : Utils) where
  open st use {Txn}

  unfoldable pub get_full_key : Table → Bytes → Bytes
  get_full_key t key = utils.concat_bytes t.table_id key

  unfoldable pub get : Table → Txn → Bytes → Outcome Error Bytes
  get t txn key = st.get txn (get_full_key t key)

  unfoldable pub set : Table → Txn → Bytes → Bytes → Outcome Error Txn
  set t txn key value = st.set txn (get_full_key t key) value

  unfoldable pub delete : Table → Txn → Bytes → Outcome Error Txn
  delete t txn key = st.delete txn (get_full_key t key)

  unfoldable pub prefix_exists : Table → Txn → Bytes → Outcome Error Bool
  prefix_exists t txn prefix = st.prefix_exists txn (get_full_key t prefix)

  unfoldable pub each_prefix : {S : Type 0} → Table → Txn → Bytes → Visit S → S → Outcome Error S
  each_prefix {S = S} t txn prefix fn s =
      st.each_prefix S txn (get_full_key t prefix) (strip t.table_id fn) s

  unfoldable pub each_prefix_keys :
      {S : Type 0} → Table → Txn → Bytes → VisitKey S → S → Outcome Error S
  each_prefix_keys {S = S} t txn prefix fn s =
      st.each_prefix_keys S txn (get_full_key t prefix) (strip_key t.table_id fn) s

  -- A bound of `listInRange`.
  unfoldable pub bound : Table → Option Bytes → Bytes
  bound t none = t.table_id
  bound t (some b) = get_full_key t b

  unfoldable pub list_in_range :
      {S : Type 0}
      → Table
      → Txn
      → Option Bytes
      → Option Bytes
      → Bool
      → Visit S
      → S
      → Outcome Error S
  list_in_range {S = S} t txn lower upper reverse fn s =
      st.each_range S txn (bound t lower) (bound t upper) reverse (strip t.table_id fn) s

  unfoldable pub each_entry : {S : Type 0} → Table → Txn → Visit S → S → Outcome Error S
  each_entry t txn fn s = list_in_range t txn none none false fn s
