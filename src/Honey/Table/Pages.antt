-- ===== src/Honey/Table/Pages.antt =====
-- honey/tables.go: `listPrefixedPaginated` and its callbacks.
use yellowstone_common.Common.{
  ℕ, Bool, true, false, if◌then◌else◌, ◌==◌, length, Option, none, some, List, [], ◌∷◌, ◌++◌, Bytes,
}
use yellowstone_common.Common.Compare.{equal, has_prefix}
use yellowstone_common.Common.Int.{ℤ, pos, negsuc}
use yellowstone_common.Common.Outcome.{Outcome, ok, ◌>>=◌}
use yellowstone_common.Honey.Store.{Error, Store, Visit}
use yellowstone_common.Honey.Table.{Utils, Table, PaginationToken, each_prefix, list_in_range}

-- `rawListPaginatedResult`
pub record Raw : Type 0 where
  pub values : List Bytes
  pub keys : List Bytes
  pub next_pagination_token : Option PaginationToken
  pub previous_pagination_token : Option PaginationToken

abbrev pub empty : Raw
empty = record {
  values = [];
  keys = [];
  next_pagination_token = none;
  previous_pagination_token = none;
}

-- `len(result.Values) == limit`, for a limit that may be negative.
abbrev pub at_limit : ℤ → ℕ → Bool
at_limit (pos l) n = n == l
at_limit (negsuc l) n = false

abbrev pub token : Bytes → Bool → Option PaginationToken
token key reverse = some (record { key = key; reverse = reverse })

-- The field that the page's direction sets.
abbrev pub with_token : Bool → Bytes → Raw → Raw
with_token false key r = record r { next_pagination_token = token key false }
with_token true key r = record r { previous_pagination_token = token key true }

abbrev pub append : Bytes → Bytes → Raw → Raw
append key value r = record r { values = r.values ++ (value ∷ []); keys = r.keys ++ (key ∷ []) }

-- The callback that fills the page.
unfoldable pub collect : ℤ → Bool → Visit Raw
collect limit reverse key value r =
    if at_limit limit (length r.values)
    then ok (false, with_token reverse key r)
    else ok (true, append key value r)

-- The same, which stops at the end of the prefix.
unfoldable pub collect_in : Bytes → ℤ → Bool → Visit Raw
unfolding collect
collect_in prefix limit reverse key value r =
    if has_prefix key prefix then collect limit reverse key value r else ok (false, r)

-- The callback that looks for the neighbour of the token, which starts the page of direction `reverse`.
unfoldable pub neighbour : Bytes → Bytes → Bool → Visit Raw
neighbour prefix from reverse key value r =
    if has_prefix key prefix
    then (if equal key from then ok (true, r) else ok (false, with_token reverse key r))
    else ok (false, r)

module _ (st : Store) (utils : Utils) where
  unfoldable pub list_prefixed_paginated :
      Table → st.Txn → Bytes → Option PaginationToken → ℤ → Outcome Error Raw
  list_prefixed_paginated t txn prefix none limit =
      each_prefix st utils t txn prefix (collect limit false) empty
  list_prefixed_paginated t txn prefix (some from) limit =
      if from.reverse
      then (list_in_range st utils t txn (some from.key) none false
            (neighbour prefix from.key false) empty
          >>= λ r.
              list_in_range st utils t txn none (some from.key) true (collect_in prefix limit true)
                r)
      else (list_in_range st utils t txn none (some from.key) true (neighbour prefix from.key true)
            empty
          >>= λ r.
              list_in_range st utils t txn (some from.key) none false
                (collect_in prefix limit false) r)

-- `ListPaginated…Result`
pub record Page (A : Type 0) : Type 0 where
  pub items : List A
  pub next_pagination_token : Option PaginationToken
  pub previous_pagination_token : Option PaginationToken

-- The loop over the values of a page.
abbrev pub decode_all :
    {A : Type 0} → (Bytes → Outcome Error A) → List Bytes → Outcome Error (List A)
decode_all decode [] = ok []
decode_all decode (v ∷ vs) = decode v >>= λ a. decode_all decode vs >>= λ rest. ok (a ∷ rest)

-- The items of a page, from its values or its keys.
abbrev pub page :
    {A : Type 0} → (Bytes → Outcome Error A) → Raw → List Bytes → Outcome Error (Page A)
page decode raw vs = decode_all decode vs >>= λ items. ok record {
  items = items;
  next_pagination_token = raw.next_pagination_token;
  previous_pagination_token = raw.previous_pagination_token;
}

-- The callback of `ListAll`.
abbrev pub append_decoded : {A : Type 0} → (Bytes → Outcome Error A) → Visit (List A)
append_decoded decode key value items = decode value >>= λ a. ok (true, items ++ (a ∷ []))
