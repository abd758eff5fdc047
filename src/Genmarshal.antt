-- ===== src/Genmarshal.antt =====
-- codegen/genmarshal/main.go: the types that `main` generates code for. What `filepath.Walk` visits, in its order, is
-- a list here, and what go/parser says of a file is the argument `parse_file`.
pub mod Marks
pub mod Laws
pub mod Code
mod Runs
use yellowstone_common.Common.{
  ℕ, Bytes, Bool, true, false, not, ◌||◌, if◌then◌else◌, Option, none, some, List, [], ◌∷◌,
  is_empty, length, drop, ◌-◌, leb, ◌&&◌,
}
use yellowstone_common.Common.Compare.{equal}
use yellowstone_common.Common.Text.{codes}
use yellowstone_common.Common.Sorting.{member, sort_strings}
use yellowstone_common.Common.Outcome.{Outcome, ok, err, ◌>>=◌}

-- `ast.Expr`, of the type of a receiver.
pub data Expr : Type 0 where
  star_expr : Expr → Expr
  ident : Bytes → Expr
  other_expr : Expr

-- `ast.FuncDecl`, with the types in its list of receivers.
pub record FuncDecl : Type 0 where
  pub name : Bytes
  pub recv : Option (List Expr)

pub data Decl : Type 0 where
  func_decl : FuncDecl → Decl
  gen_decl : Decl

-- A call of the function that is given to `filepath.Walk`.
pub record Visited : Type 0 where
  pub path : Bytes
  pub is_dir : Bool
  pub walk_error : Option ℕ

pub data Error : Type 0 where
  walking : ℕ → Error
  failed_to_parse : Bytes → Error

-- `strings.HasSuffix`
abbrev pub has_suffix : Bytes → Bytes → Bool
has_suffix s suffix =
    leb (length suffix) (length s) && equal (drop (length s - length suffix) s) suffix

unfoldable pub type_name : Expr → Bytes
type_name (ident n) = n
type_name other_expr = []
type_name (star_expr (ident n)) = n
type_name (star_expr (star_expr e)) = []
type_name (star_expr other_expr) = []

-- `types[name] = true`
abbrev pub put_type : Bytes → List Bytes → List Bytes
put_type n types = if member types n then types else n ∷ types

-- The name that the function for `ast.Inspect` finds at a declaration, or the empty one.
unfoldable pub message_name : Decl → Bytes
unfolding type_name
message_name gen_decl = []
message_name (func_decl fd) = elim fd.recv [
  | none ↦ []
  | some [] ↦ []
  | some (recv ∷ rs) ↦ if not (equal fd.name (codes "ProtoMessage")) then [] else type_name recv
]

unfoldable pub note_method : Decl → List Bytes → List Bytes
unfolding message_name
note_method d types = if is_empty (message_name d) then types else put_type (message_name d) types

unfoldable pub note_file : List Decl → List Bytes → List Bytes
unfolding note_method
note_file [] types = types
note_file (d ∷ ds) types = note_file ds (note_method d types)

module _ (parse_file : Bytes → Option (List Decl)) where
  unfoldable pub visit_file : Visited → List Bytes → Outcome Error (List Bytes)
  unfolding note_file
  visit_file v types = elim v.walk_error [
    | some e ↦ err (walking e)
    | none ↦
        if v.is_dir || not (has_suffix v.path (codes ".pb.go"))
        then ok types
        else elim (parse_file v.path) as (λ o. Outcome Error (List Bytes)) [
          | none ↦ err (failed_to_parse v.path)
          | some decls ↦ ok (note_file decls types)
        ]
  ]

  unfoldable pub walk : List Visited → List Bytes → Outcome Error (List Bytes)
  unfolding visit_file
  walk [] types = ok types
  walk (v ∷ vs) types = visit_file v types >>= λ types'. walk vs types'

  -- In Go the order of the result is that of a map, which is random; `main` sorts it.
  unfoldable pub find_protobuf_types : List Visited → Outcome Error (List Bytes)
  unfolding walk
  find_protobuf_types vs = walk vs []

  -- The types in the order in which `main` generates code for them.
  unfoldable pub generated_types : List Visited → Outcome Error (List Bytes)
  unfolding find_protobuf_types sort_strings
  generated_types vs = find_protobuf_types vs >>= λ types. ok (sort_strings types)
