-- ===== src/Honey/Portable/Split.antt =====
-- honey/portable.go: a snapshot restored into the two halves of a shard that is split.
mod Runs
use yellowstone_common.Common.{
  if◌then◌else◌, ◌≡◌, refl, sym, ap, subst, ◌∙◌, arith, Bool, true, false, not, ◌&&◌, ◌||◌,
  Bool-cases, Option, none, some, List, [], ◌∷◌, ◌++◌, Bytes, All, inl, inr,
}
use mathlib.Core.List.{Perm, perm_middle}
use mathlib.Core.List.Perm
use yellowstone_common.Common.Outcome.{Outcome, ok, err, panic, ◌>>=◌}
use yellowstone_common.Honey.Store
use yellowstone_common.Honey.Portable.{
  Badger, ShardKeys, ShardRange, owns, PortableTable, Section, Stream, Error, unknown_table,
  restoring, clear_all, by_name, restore_snapshot,
}
use yellowstone_common.Honey.Portable.Replay.{
  Contents, Entity, entities, ending, Inserts, Follows, final_rows, inserted, replay_one, replay,
}
use yellowstone_common.Honey.Portable.Chunks.{restore_snapshot-replay}

-- The ranges `lower` and `upper` are the two parts of `whole`, which next to one another make it up.
pub record Adjacent (keys : ShardKeys) (lower upper whole : ShardRange keys) : Type 0 where
  pub starts : lower.lower ≡ whole.lower
  pub ends : upper.upper ≡ whole.upper
  pub next : (k : keys.ShardKey) → keys.le upper.lower k ≡ not (keys.le k lower.upper)
  pub below : (k : keys.ShardKey) → keys.le k lower.upper ≡ true → keys.le k whole.upper ≡ true
  pub above : (k : keys.ShardKey) → keys.le upper.lower k ≡ true → keys.le whole.lower k ≡ true

-- Every key of the whole is in exactly one of the parts.
record OwnedOnce (keys : ShardKeys) (lower upper whole : ShardRange keys) (k : keys.ShardKey)
    : Type 0 where
  one : owns keys whole k ≡ (owns keys lower k || owns keys upper k)
  apart : (owns keys lower k && owns keys upper k) ≡ false

owned_once :
    (keys : ShardKeys) (lower upper whole : ShardRange keys)
    → Adjacent keys lower upper whole
    → (k : keys.ShardKey) → OwnedOnce keys lower upper whole k
unfolding owns
owned_once keys lower upper whole h k = elim (Bool-cases (keys.le k lower.upper)) [
  | inl low ↦ record {
    one = ground (arith, h.below k low, low, h.starts, h.next k);
    apart = ground (arith, low, h.next k);
  }
  | inr high ↦ record {
    one = ground (arith, h.above k (h.next k ∙ ap not high), high, h.ends, h.next k);
    apart = ground (arith, high);
  }
]

bind_same {ℓ} :
    {E A B : Type ℓ} (o : Outcome E A) (f g : A → Outcome E B)
    → ((a : A) → f a ≡ g a)
    → (o >>= f) ≡ (o >>= g)
bind_same (ok a) f g h = h a
bind_same (err e) f g h = refl
bind_same panic f g h = refl

bind_ok {ℓ} : {E A : Type ℓ} (o : Outcome E A) → (o >>= ok) ≡ o
bind_ok (ok a) = refl
bind_ok (err e) = refl
bind_ok panic = refl

-- An entry that goes to exactly one of two lists, if it goes to the list of both.
one_of_two :
    (in_xs in_ys in_zs : Bool) (e : Entity) (xs ys zs : List Entity)
    → in_zs ≡ (in_xs || in_ys)
    → (in_xs && in_ys) ≡ false
    → Perm (xs ++ ys) zs
    → Perm
        ((if in_xs then e ∷ xs else xs) ++ (if in_ys then e ∷ ys else ys))
        (if in_zs then e ∷ zs else zs)
one_of_two true true in_zs e xs ys zs one apart h = absurd (cc apart)
one_of_two true false in_zs e xs ys zs one apart h = rw one (Perm.cons e h)
one_of_two false true in_zs e xs ys zs one apart h =
    rw one (Perm.trans (perm_middle xs ys) (Perm.cons e h))
one_of_two false false in_zs e xs ys zs one apart h = rw one h

module _ (b : Badger) (keys : ShardKeys) (view : Contents b) where
  open view use {Rows, rows}

  -- How a table inserts the entities that it keeps, and their shard keys.
  pub record Keeping : Type 1 where
    pub shard_key : PortableTable b keys → Bytes → Bytes → keys.ShardKey
    pub put : PortableTable b keys → Rows → Bytes → Bytes → Outcome Store.Error Rows

  abbrev pub kept_if : Bool → Outcome Store.Error Rows → Rows → Outcome Store.Error (Rows × Bool)
  kept_if true o m = o >>= λ m'. ok (m', true)
  kept_if false o m = ok (m, false)

  module _ (ins : Inserts b keys view) (keep : Keeping) (sections : List (Section b keys)) where
    -- The entity's table is there, and keeps it exactly if the range owns its shard key.
    pub record Keeps (e : Entity) : Type 1 where
      pub tbl : PortableTable b keys
      pub known : by_name b keys sections e.name ≡ some tbl
      pub keeps :
          (m : Rows) (r : ShardRange keys)
          → ins.insert tbl m e.key e.entity r
            ≡ kept_if
                (owns keys r (keep.shard_key tbl e.key e.entity))
                (keep.put tbl m e.key e.entity)
                m

    abbrev pub is_owned : ShardRange keys → Entity → Bool
    is_owned r e = elim (by_name b keys sections e.name) [
      | none ↦ false
      | some tbl ↦ owns keys r (keep.shard_key tbl e.key e.entity)
    ]

    -- The entities whose shard keys the range owns.
    abbrev pub owned : ShardRange keys → List Entity → List Entity
    owned r [] = []
    owned r (e ∷ es) = let rest = owned r es in if is_owned r e then e ∷ rest else rest

    abbrev pub put_rows : Bytes → Outcome Store.Error Rows → Outcome Error Rows
    put_rows name (ok m) = ok m
    put_rows name (err e) = err (restoring name e)
    put_rows name panic = panic

    -- Entities are inserted in order, whatever their shard keys are, until one fails.
    abbrev pub put_one : Entity → Rows → Outcome Error Rows
    put_one e m = elim (by_name b keys sections e.name) [
      | none ↦ err (unknown_table e.name)
      | some tbl ↦ put_rows e.name (keep.put tbl m e.key e.entity)
    ]

    abbrev pub put_all : List Entity → Rows → Outcome Error Rows
    put_all [] m = ok m
    put_all (e ∷ es) m = put_one e m >>= λ m'. put_all es m'

    inserted-put :
        (bounds : ShardRange keys) (name : Bytes) (o : Outcome Store.Error Rows) (m : Rows)
        → inserted b keys view ins sections bounds name (kept_if true o m) ≡ put_rows name o
    inserted-put bounds name (ok m') m = refl
    inserted-put bounds name (err e) m = refl
    inserted-put bounds name panic m = refl

    is_owned_lem :
        (r : ShardRange keys) (e : Entity) (k : Keeps e)
        → is_owned r e ≡ owns keys r (keep.shard_key k.tbl e.key e.entity)
    is_owned_lem r e k = rw (k.known, is_owned) refl

    put_one_lem :
        (e : Entity) (m : Rows) (k : Keeps e)
        → put_one e m ≡ put_rows e.name (keep.put k.tbl m e.key e.entity)
    put_one_lem e m k = rw (k.known, put_one) refl

    -- One entity, by whether the range owns it.
    replay_one-owned :
        (bounds : ShardRange keys) (e : Entity) (m : Rows) (k : Keeps e)
        → replay_one b keys view ins sections bounds e m
          ≡ (if is_owned bounds e then put_one e m else ok m)
    replay_one-owned bounds e m k =
        elim (Bool-cases (owns keys bounds (keep.shard_key k.tbl e.key e.entity))) [
          | inl mine ↦
              rw
                (
                  k.known,
                  replay_one,
                  is_owned_lem bounds e k,
                  k.keeps m bounds,
                  mine,
                  put_one_lem e m k,
                )
                (inserted-put bounds e.name (keep.put k.tbl m e.key e.entity) m)
          | inr not_mine ↦
              rw (k.known, replay_one, is_owned_lem bounds e k, k.keeps m bounds, not_mine) refl
        ]

    put_next :
        (mine : Bool) (e : Entity) (es : List Entity) (m : Rows) (f : Rows → Outcome Error Rows)
        → ((m' : Rows) → f m' ≡ put_all es m')
        → ((if mine then put_one e m else ok m) >>= f) ≡ put_all (if mine then e ∷ es else es) m
    put_next true e es m f h = bind_same (put_one e m) f (put_all es) h
    put_next false e es m f h = h m

    replay-owned :
        (bounds : ShardRange keys) (es : List Entity) (m : Rows)
        → All Keeps es
        → replay b keys view ins sections bounds es m ≡ put_all (owned bounds es) m
    replay-owned bounds [] m h = refl
    replay-owned bounds (e ∷ es) m (k, h) =
        ap (λ o. o >>= replay b keys view ins sections bounds es) (replay_one-owned bounds e m k)
        ∙ put_next (is_owned bounds e) e (owned bounds es) m _ (λ m'. replay-owned bounds es m' h)

    owned-Perm :
        (lower upper whole : ShardRange keys) (es : List Entity)
        → Adjacent keys lower upper whole
        → All Keeps es
        → Perm (owned lower es ++ owned upper es) (owned whole es)
    owned-Perm lower upper whole [] adj h = Perm.refl []
    owned-Perm lower upper whole (e ∷ es) adj (k, h) =
        let once = owned_once keys lower upper whole adj (keep.shard_key k.tbl e.key e.entity) in
        one_of_two (is_owned lower e) (is_owned upper e) (is_owned whole e) e (owned lower es)
          (owned upper es) (owned whole es)
          (rw (is_owned_lem lower e k, is_owned_lem upper e k, is_owned_lem whole e k) once.one)
          (rw (is_owned_lem lower e k, is_owned_lem upper e k) once.apart)
          (owned-Perm lower upper whole es adj h)

    -- Where a commit of at most 512 entities and `Flatten` succeed, the tables' inserts see only the rows and keep
    -- an entity exactly if the range owns its shard key, and the clearing succeeds: `RestoreSnapshot` of one reader
    -- that ends well inserts exactly the entities whose shard keys the range owns, in order, with the same
    -- error where one is refused; and of two ranges next to one another, every entity that the whole range owns
    -- is owned by exactly one.
    pub restore_snapshot_split :
        (follows : (n : Bytes) (p : PortableTable b keys)
          → by_name b keys sections n ≡ some p
          → Follows b keys view ins p)
        (lower upper whole : ShardRange keys) (db db1 : b.Db) (s : Stream)
        → Adjacent keys lower upper whole
        → clear_all b keys sections db ≡ ok db1
        → ending s ≡ none
        → All Keeps (entities [] s)
        → ((r : ShardRange keys)
            → final_rows b keys view (restore_snapshot b keys sections r db (s ∷ []))
              ≡ put_all (owned r (entities [] s)) (rows db1))
          × Perm
              (owned lower (entities [] s) ++ owned upper (entities [] s))
              (owned whole (entities [] s))
    restore_snapshot_split follows lower upper whole db db1 s adj cleared whole_stream keeps = (
      λ r.
          restore_snapshot-replay b keys view ins sections r follows db db1 (s ∷ []) cleared
          ∙ rw (replay-owned r (entities [] s) (rows db1) keeps, whole_stream)
              (bind_ok (put_all (owned r (entities [] s)) (rows db1))),
      owned-Perm lower upper whole (entities [] s) adj keeps,
    )
