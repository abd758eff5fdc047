-- ===== src/Honey/Replicas.antt =====
-- honey/replica_prefix.go: `GetOrAssignPrefix` and its counter. A replica id is its bytes. The
-- methods hold a mutex, so each call is one step.
pub mod Laws
pub mod Unique
pub mod Listing
pub mod Assignments
pub mod Total
mod Runs
use yellowstone_common.Common.{
  ℕ, zero, suc, ◌+◌, ◌*◌, ◌/◌, ◌%◌, ◌^◌, ltb, is_empty, if◌then◌else◌, none, some, Option, [], ◌∷◌,
  ◌++◌, Bytes, length, true, List,
}
use yellowstone_common.Common.Outcome.{Outcome, ok, err, panic, ◌>>=◌, or_panic}
use yellowstone_common.Honey.Store
use yellowstone_common.Honey.Store.{Store, Row, Visit, not_found}
use yellowstone_common.Honey.Table.{slice_from}

-- The messages that `GetOrAssignPrefix` puts before an error.
pub data Error : Type 0 where
  empty_id : Error
  reading_prefix : Store.Error → Error
  reading_counter : Store.Error → Error
  exhausted : Error
  writing_prefix : Store.Error → Error
  writing_counter : Store.Error → Error
  committing : Store.Error → Error

abbrev pub replica_registry_prefix : Bytes
replica_registry_prefix = 0x00 ∷ 0x00 ∷ []

abbrev pub category_assignments : ℕ
category_assignments = 0x01

abbrev pub category_counter : ℕ
category_counter = 0x02

abbrev pub max_assignable_replica_prefix : ℕ
max_assignable_replica_prefix = 0xffff

unfoldable pub category_key : ℕ → Bytes
category_key category = replica_registry_prefix ++ (category ∷ [])

unfoldable pub assignment_key : Bytes → Bytes
unfolding category_key
assignment_key replica_id = category_key category_assignments ++ replica_id

unfoldable pub counter_key : Bytes
unfolding category_key
counter_key = category_key category_counter

-- `binary.BigEndian`: it panics on less than two bytes.
unfoldable pub put_uint16 : ℕ → Bytes
put_uint16 n = (n / 256 % 256) ∷ (n % 256) ∷ []

unfoldable pub uint16 : Bytes → Option ℕ
uint16 [] = none
uint16 (a ∷ []) = none
uint16 (a ∷ b ∷ rest) = some (a * 256 + b)

-- A failure of the store, under a message.
abbrev wrap {ℓ} : {E F A : Type ℓ} → (E → F) → Outcome E A → Outcome F A
wrap f (ok a) = ok a
wrap f (err e) = err (f e)
wrap f panic = panic

module _ (st : Store) where
  open st use {Txn, get, set}

  unfoldable pub read_counter : Txn → Outcome Error ℕ
  unfolding uint16
  read_counter txn = elim (get txn counter_key) [
    | ok v ↦ or_panic (uint16 v)
    | err e ↦ elim e [ not_found ↦ ok 0 | Store.other n ↦ err (reading_counter (Store.other n)) ]
    | panic ↦ panic
  ]

  -- The part of `GetOrAssignPrefix` for a new id. `commit` is the transaction's `Commit`.
  unfoldable pub assign :
      (Txn → Outcome Store.Error Txn) → Txn → Bytes → Outcome Error (Txn × Bytes)
  unfolding assignment_key counter_key put_uint16
  assign commit txn replica_id = read_counter txn >>= λ last.
      let next = last + 1 in
      if ltb max_assignable_replica_prefix next
      then err exhausted
      else (let prefix = put_uint16 (next % 2 ^ 16) in
          wrap writing_prefix (set txn (assignment_key replica_id) prefix) >>= λ txn'.
          wrap writing_counter (set txn' counter_key prefix) >>= λ txn''.
          wrap committing (commit txn'') >>= λ done. ok (done, prefix))

  -- `GetOrAssignPrefix`, from the committed state of the store to the next. The deferred `Discard`
  -- drops the writes of a call that fails.
  unfoldable pub get_or_assign_prefix :
      (Txn → Outcome Store.Error Txn) → Txn → Bytes → Outcome Error (Txn × Bytes)
  unfolding assign assignment_key
  get_or_assign_prefix commit txn replica_id =
      if is_empty replica_id then err empty_id else elim (get txn (assignment_key replica_id)) [
        | ok existing ↦ ok (txn, existing)
        | err e ↦ elim e [
          | not_found ↦ assign commit txn replica_id
          | Store.other n ↦ err (reading_prefix (Store.other n))
        ]
        | panic ↦ panic
      ]

  -- The callback of `AllPrefixes`, with the map as rows, the newest first. A map has one row for a key,
  -- and so do these: the keys of a store are different.
  unfoldable pub collect_prefix : Visit (List Row)
  collect_prefix key value result =
      slice_from (length (category_key category_assignments)) key >>= λ id.
      ok (true, (id, value) ∷ result)

  -- `AllPrefixes`
  unfoldable pub all_prefixes : Txn → Outcome Store.Error (List Row)
  all_prefixes txn =
      st.each_prefix (List Row) txn (category_key category_assignments) collect_prefix []
