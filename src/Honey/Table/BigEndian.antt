-- ===== src/Honey/Table/BigEndian.antt =====
-- The big-endian values of the tables.
use yellowstone_common.Common.{ℕ, ◌^◌, ◌<◌, ◌≡◌, ap, arith, Bytes}
use yellowstone_common.Common.Outcome.{ok}
use yellowstone_common.Honey.Store.{Store, ReadsWrites}
use yellowstone_common.Honey.Table
use yellowstone_common.Honey.Table.{Utils, Table, get_full_key}
use yellowstone_common.Honey.Table.Uint64
use yellowstone_common.Honey.Table.Uint32
use yellowstone_common.Honey.Table.Uint64.{
  big_endian, put_big_endian, bytes_to_uint64, uint64_to_bytes,
}
use yellowstone_common.Honey.Table.Uint32.{bytes_to_uint32, uint32_to_bytes}

pub bytes_to_uint32-uint32_to_bytes :
    (u : ℕ) → u < 2 ^ 32 → bytes_to_uint32 (uint32_to_bytes u) ≡ ok u
unfolding bytes_to_uint32 uint32_to_bytes big_endian put_big_endian
bytes_to_uint32-uint32_to_bytes u h = ap ok (omega arith)

pub bytes_to_uint64-uint64_to_bytes :
    (u : ℕ) → u < 2 ^ 64 → bytes_to_uint64 (uint64_to_bytes u) ≡ ok u
unfolding bytes_to_uint64 uint64_to_bytes big_endian put_big_endian
bytes_to_uint64-uint64_to_bytes u h = ap ok (omega arith)

-- A number that is written to a table of them is read back.
pub Uint64-get-set :
    (st : Store) (utils : Utils) (laws : ReadsWrites st) (a : Table) (t t' : st.Txn) (key : Bytes)
    (u : ℕ)
    → u < 2 ^ 64
    → Uint64.set st utils a t key u ≡ ok t'
    → Uint64.get st utils a t' key ≡ ok u
unfolding Uint64.set Uint64.get Table.set Table.get
Uint64-get-set st utils laws a t t' key u h e =
    rw (laws.get-set t t' (get_full_key st utils a key) (uint64_to_bytes u) e)
      (bytes_to_uint64-uint64_to_bytes u h)

pub Uint32-get-set :
    (st : Store) (utils : Utils) (laws : ReadsWrites st) (a : Table) (t t' : st.Txn) (key : Bytes)
    (u : ℕ)
    → u < 2 ^ 32
    → Uint32.set st utils a t key u ≡ ok t'
    → Uint32.get st utils a t' key ≡ ok u
unfolding Uint32.set Uint32.get Table.set Table.get
Uint32-get-set st utils laws a t t' key u h e =
    rw (laws.get-set t t' (get_full_key st utils a key) (uint32_to_bytes u) e)
      (bytes_to_uint32-uint32_to_bytes u h)
