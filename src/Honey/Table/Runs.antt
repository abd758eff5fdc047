-- ===== src/Honey/Table/Runs.antt =====
-- Tables on the store in memory, and their theorems at concrete inputs.
use yellowstone_common.Common.{
  Bytes, ℕ, ◌+◌, ◌≡◌, refl, arith, none, List, [], ◌∷◌, ◌++◌, true, false,
}
use yellowstone_common.Common.Int.{pos}
use yellowstone_common.Common.Outcome.{Outcome, ok, panic}
use yellowstone_common.Honey.Store.{Row, Visit, Error}
use yellowstone_common.Honey.Memory.{memory, memory_Iterates, memory_Ranges}
use yellowstone_common.Honey.Table
use yellowstone_common.Honey.Table.{Utils, Concats, Table, get_full_key, each_prefix}
use yellowstone_common.Honey.Table.Pages.{Raw, token, list_prefixed_paginated}
use yellowstone_common.Honey.Table.Uint64.{uint64_to_bytes}
use yellowstone_common.Honey.Table.Uint64
use yellowstone_common.Honey.Table.Walk.{Around, forward_page, backward_page}
use yellowstone_common.Honey.Table.Traverse.{Split, values_from, values_from_first}
use yellowstone_common.Honey.Table.Laws.{first_page}

abbrev pub utils : Utils
utils = record { concat_bytes = λ a b. a ++ b; concat_uint64 = λ a n. a ++ uint64_to_bytes n }

pub utils-Concats : Concats utils
utils-Concats = record { bytes = λ a b. refl }

abbrev pub users : Table
users = record { table_id = 1 ∷ 1 ∷ [] }

abbrev events : Table
events = record { table_id = 1 ∷ 2 ∷ [] }

abbrev rows : List Row
rows =
    (1 ∷ 1 ∷ 5 ∷ [], 50 ∷ [])
    ∷ (1 ∷ 2 ∷ 5 ∷ [], 51 ∷ [])
    ∷ (1 ∷ 1 ∷ 6 ∷ [], 60 ∷ [])
    ∷ (1 ∷ 1 ∷ 7 ∷ [], 70 ∷ [])
    ∷ []

-- The row that a write adds.
abbrev written : List Row
written = (1 ∷ 1 ∷ 9 ∷ [], 90 ∷ []) ∷ rows

set_run : Table.set memory utils users rows (9 ∷ []) (90 ∷ []) ≡ ok written
unfolding Table.set get_full_key
set_run = refl

-- A callback that counts up to two rows.
abbrev count : Visit ℕ
count k v n = ok (true, n + 1)

-- Two rows of the three, and the token at the third.
abbrev page_of_two : Raw
page_of_two = record {
  values = (50 ∷ []) ∷ (60 ∷ []) ∷ [];
  keys = (5 ∷ []) ∷ (6 ∷ []) ∷ [];
  next_pagination_token = token (7 ∷ []) false;
  previous_pagination_token = none;
}

first_page_example :
    list_prefixed_paginated memory utils users rows [] none (pos 2) ≡ ok page_of_two
first_page_example = first_page memory utils utils-Concats (λ t. t) memory_Iterates users rows [] 2

abbrev numbers : List Row
numbers = (1 ∷ 1 ∷ 9 ∷ [], 0 ∷ 0 ∷ 0 ∷ 0 ∷ 0 ∷ 0 ∷ 1 ∷ 2 ∷ []) ∷ rows

set_258 : Uint64.set memory utils users rows (9 ∷ []) 258 ≡ ok numbers
unfolding Uint64.set Table.set get_full_key uint64_to_bytes Uint64.put_big_endian
set_258 = refl

-- Messages of one byte.
abbrev unmarshal : Bytes → Outcome Error ℕ
unmarshal [] = panic
unmarshal (b ∷ bs) = ok b

abbrev marshal : ℕ → Outcome Error Bytes
marshal b = ok (b ∷ [])

-- The table's three rows, and around them a row outside of the prefix.
abbrev shelf : List Row
shelf =
    (1 ∷ 1 ∷ 4 ∷ 0 ∷ [], 40 ∷ [])
    ∷ (1 ∷ 1 ∷ 5 ∷ 0 ∷ [], 50 ∷ [])
    ∷ (1 ∷ 1 ∷ 5 ∷ 1 ∷ [], 51 ∷ [])
    ∷ (1 ∷ 1 ∷ 5 ∷ 2 ∷ [], 52 ∷ [])
    ∷ (1 ∷ 2 ∷ 5 ∷ [], 60 ∷ [])
    ∷ []

abbrev fives : List Row
fives = (5 ∷ 0 ∷ [], 50 ∷ []) ∷ (5 ∷ 1 ∷ [], 51 ∷ []) ∷ (5 ∷ 2 ∷ [], 52 ∷ []) ∷ []

shelf-Split : Split memory (λ t. t) users shelf (5 ∷ []) ((4 ∷ 0 ∷ [], 40 ∷ []) ∷ []) [] [] fives
shelf-Split = record {
  there = refl;
  under_back = tt;
  under_ahead = (refl, (refl, (refl, tt)));
  outside_back = (refl, tt);
  outside_ahead = tt;
  apart_back = tt;
  apart = ((refl, (refl, tt)), ((refl, tt), (tt, tt)));
}

values_from_first_example :
    values_from memory utils users shelf (5 ∷ []) 2 4 none
    ≡ ok ((50 ∷ []) ∷ (51 ∷ []) ∷ (52 ∷ []) ∷ [])
values_from_first_example =
    values_from_first memory utils utils-Concats (λ t. t) memory_Ranges users shelf (5 ∷ [])
      ((4 ∷ 0 ∷ [], 40 ∷ []) ∷ []) [] 1 memory_Iterates fives 4 refl shelf-Split (omega arith)

-- The token at the second of the three.
shelf-Around :
    Around memory
      (λ t. t)
      users
      shelf
      (5 ∷ [])
      (5 ∷ 1 ∷ [])
      (51 ∷ [])
      ((5 ∷ 0 ∷ [], 50 ∷ []) ∷ [])
      ((4 ∷ 0 ∷ [], 40 ∷ []) ∷ [])
      ((5 ∷ 2 ∷ [], 52 ∷ []) ∷ [])
      []
shelf-Around = record {
  there = refl;
  here = refl;
  under_back = (refl, tt);
  under_ahead = (refl, tt);
  outside_back = (refl, tt);
  outside_ahead = tt;
  other_back = (refl, tt);
  other_ahead = (refl, tt);
  alone = (refl, tt);
}

forward_page_example :
    list_prefixed_paginated memory utils users shelf (5 ∷ []) (token (5 ∷ 1 ∷ []) false) (pos 1)
    ≡ ok record {
      values = (51 ∷ []) ∷ [];
      keys = (5 ∷ 1 ∷ []) ∷ [];
      next_pagination_token = token (5 ∷ 2 ∷ []) false;
      previous_pagination_token = token (5 ∷ 0 ∷ []) true;
    }
forward_page_example =
    forward_page memory utils utils-Concats (λ t. t) memory_Ranges users shelf (5 ∷ []) (5 ∷ 1 ∷ [])
      (51 ∷ []) ((5 ∷ 0 ∷ [], 50 ∷ []) ∷ []) ((4 ∷ 0 ∷ [], 40 ∷ []) ∷ [])
      ((5 ∷ 2 ∷ [], 52 ∷ []) ∷ []) [] shelf-Around 1

backward_page_example :
    list_prefixed_paginated memory utils users shelf (5 ∷ []) (token (5 ∷ 1 ∷ []) true) (pos 2)
    ≡ ok record {
      values = (51 ∷ []) ∷ (50 ∷ []) ∷ [];
      keys = (5 ∷ 1 ∷ []) ∷ (5 ∷ 0 ∷ []) ∷ [];
      next_pagination_token = token (5 ∷ 2 ∷ []) false;
      previous_pagination_token = none;
    }
backward_page_example =
    backward_page memory utils utils-Concats (λ t. t) memory_Ranges users shelf (5 ∷ [])
      (5 ∷ 1 ∷ []) (51 ∷ []) ((5 ∷ 0 ∷ [], 50 ∷ []) ∷ []) ((4 ∷ 0 ∷ [], 40 ∷ []) ∷ [])
      ((5 ∷ 2 ∷ [], 52 ∷ []) ∷ []) [] shelf-Around 2
