-- ===== src/Validatortest.antt =====
-- validatortest/fields.go: `AssertAllFieldsChecked`. What the packages reflect, runtime and go/parser say of
-- a function and of a file is data here: a function value, and the argument `parse_file`. A syntax
-- tree keeps identifiers and selectors; every other node is its list of children.
pub mod Names
pub mod Laws
pub mod Selectors
mod Runs
use yellowstone_common.Common.{
  ℕ, suc, Bytes, Bool, true, false, not, ◌&&◌, ◌||◌, if◌then◌else◌, ◌==◌, Option, none, some, List,
  [], ◌∷◌, drop, is_empty,
}
use yellowstone_common.Common.Compare.{equal}
use yellowstone_common.Common.Sorting.{member, sort_strings}
use yellowstone_common.Common.Outcome.{Outcome, ok, err, ◌>>=◌}

-- `ast.Node`
mutual
  pub data Node : Type 0 where
    ident : Bytes → Node
    selector_expr : Node → Bytes → Node
    other : Nodes → Node

  pub data Nodes : Type 0 where
    nil : Nodes
    cons : Node → Nodes → Nodes

-- `ast.FuncDecl`: whether it has a receiver, and the names of each of its parameters.
pub record FuncDecl : Type 0 where
  pub recv : Bool
  pub name : Bytes
  pub params : Option (List (List Bytes))
  pub body : Option Node

pub data Decl : Type 0 where
  func_decl : FuncDecl → Decl
  gen_decl : Decl

-- `reflect.StructField`, with the keys and the values of the tag.
pub record StructField : Type 0 where
  pub field_name : Bytes
  pub pkg_path : Bytes
  pub tag : List (Bytes × Bytes)

-- `reflect.Type`
pub data GoType : Type 0 where
  pointer : GoType → GoType
  struct_type : List StructField → GoType
  other_type : GoType

-- `runtime.Func`
pub record RuntimeFunc : Type 0 where
  pub full_name : Bytes
  pub file : Bytes

-- `reflect.Value`: the types of the arguments, and what `runtime.FuncForPC` gives.
pub data Value : Type 0 where
  func : List GoType → Option RuntimeFunc → Value
  not_func : Value

-- The call of `Fatalf`.
pub data Fatal : Type 0 where
  not_a_function no_argument not_a_struct_pointer unresolved : Fatal
  unparsed no_source no_named_parameters : Bytes → Fatal
  not_referenced : Bytes → List Bytes → Fatal

-- `strings.LastIndex`, for one byte.
unfoldable pub last_index : Bytes → ℕ → Option ℕ
last_index [] c = none
last_index (b ∷ s) c = elim (last_index s c) [
  | some i ↦ some (suc i)
  | none ↦ if b == c then some 0 else none
]

-- What stands behind the last `c`.
unfoldable pub behind : Bytes → ℕ → Bytes
unfolding last_index
behind s c = elim (last_index s c) [ some i ↦ drop (suc i) s | none ↦ s ]

unfoldable pub func_short_name : Bytes → Bytes
unfolding behind
func_short_name full_name = behind (behind full_name 47) 46

unfoldable pub find_func_decl : List Decl → Bytes → Option FuncDecl
find_func_decl [] name = none
find_func_decl (gen_decl ∷ ds) name = find_func_decl ds name
find_func_decl (func_decl fd ∷ ds) name =
    let rest = find_func_decl ds name in if not fd.recv && equal fd.name name then some fd else rest

-- `Tag.Lookup`
abbrev pub lookup : List (Bytes × Bytes) → Bytes → Bool
lookup [] key = false
lookup ((k, v) ∷ tag) key = equal k key || lookup tag key

abbrev pub protobuf : Bytes
protobuf = 112 ∷ 114 ∷ 111 ∷ 116 ∷ 111 ∷ 98 ∷ 117 ∷ 102 ∷ []

abbrev pub protobuf_oneof : Bytes
protobuf_oneof =
    112 ∷ 114 ∷ 111 ∷ 116 ∷ 111 ∷ 98 ∷ 117 ∷ 102 ∷ 95 ∷ 111 ∷ 110 ∷ 101 ∷ 111 ∷ 102 ∷ []

unfoldable pub proto_field_names : List StructField → List Bytes
proto_field_names [] = []
proto_field_names (f ∷ fs) =
    let names = proto_field_names fs in
    if not (is_empty f.pkg_path)
    then names
    else if not (lookup f.tag protobuf) && not (lookup f.tag protobuf_oneof)
    then names
    else f.field_name ∷ names

-- `ast.Inspect`, for a function that always goes on to the children.
unfoldable mutual
  pub inspect {ℓ} : {A : Type ℓ} → (Node → A → A) → Node → A → A
  inspect f (ident x) a = f (ident x) a
  inspect f (selector_expr x sel) a = f (ident sel) (inspect f x (f (selector_expr x sel) a))
  inspect f (other ns) a = inspect_all f ns (f (other ns) a)

  pub inspect_all {ℓ} : {A : Type ℓ} → (Node → A → A) → Nodes → A → A
  inspect_all f nil a = a
  inspect_all f (cons n ns) a = inspect_all f ns (inspect f n a)

-- The function that `referencedSelectors` gives to `ast.Inspect`.
unfoldable pub note_selector : Bytes → Node → List Bytes → List Bytes
note_selector param_name (ident x) referenced = referenced
note_selector param_name (other ns) referenced = referenced
note_selector param_name (selector_expr (ident x) sel) referenced =
    if equal x param_name then sel ∷ referenced else referenced
note_selector param_name (selector_expr (selector_expr y s) sel) referenced = referenced
note_selector param_name (selector_expr (other ns) sel) referenced = referenced

unfoldable pub referenced_selectors : Node → Bytes → List Bytes
unfolding inspect note_selector
referenced_selectors body param_name = inspect (note_selector param_name) body []

-- The loop over the fields.
unfoldable pub missing_fields : List Bytes → List Bytes → List Bytes → List Bytes
missing_fields skip referenced [] = []
missing_fields skip referenced (f ∷ fs) =
    let missing = missing_fields skip referenced fs in
    if member skip f then missing else if not (member referenced f) then f ∷ missing else missing

-- The struct that the first argument points to.
unfoldable pub param_struct : List GoType → Outcome Fatal (List StructField)
param_struct [] = err no_argument
param_struct (pointer (struct_type fields) ∷ ts) = ok fields
param_struct (pointer (pointer t) ∷ ts) = err not_a_struct_pointer
param_struct (pointer other_type ∷ ts) = err not_a_struct_pointer
param_struct (struct_type fields ∷ ts) = err not_a_struct_pointer
param_struct (other_type ∷ ts) = err not_a_struct_pointer

-- The body of a declaration, and the name of its first parameter.
unfoldable pub named_param : Bytes → FuncDecl → Outcome Fatal (Node × Bytes)
named_param short_name decl = elim decl.body [
  | none ↦ err (no_source short_name)
  | some body ↦ elim decl.params [
    | none ↦ err (no_named_parameters short_name)
    | some [] ↦ err (no_named_parameters short_name)
    | some ([] ∷ ps) ↦ err (no_named_parameters short_name)
    | some ((param_name ∷ xs) ∷ ps) ↦ ok (body, param_name)
  ]
]

-- The end of the check.
unfoldable pub report : Bytes → List Bytes → Outcome Fatal Unit
unfolding sort_strings
report short_name [] = ok tt
report short_name (f ∷ missing) = err (not_referenced short_name (sort_strings (f ∷ missing)))

module _ (parse_file : Bytes → Option (List Decl)) where
  -- From `FuncForPC` to the name of the first parameter.
  unfoldable pub source : Option RuntimeFunc → Outcome Fatal (Bytes × Node × Bytes)
  unfolding func_short_name find_func_decl named_param
  source none = err unresolved
  source (some rt_func) =
      let short_name = func_short_name rt_func.full_name in
      elim (parse_file rt_func.file) [
        | none ↦ err (unparsed short_name)
        | some decls ↦ elim (find_func_decl decls short_name) [
          | none ↦ err (no_source short_name)
          | some decl ↦ named_param short_name decl >>= (λ r. ok (short_name, r.0, r.1))
        ]
      ]

  -- What `AssertAllFieldsChecked` reports, if anything.
  unfoldable pub assert_all_fields_checked : Value → List Bytes → Outcome Fatal Unit
  unfolding source param_struct missing_fields referenced_selectors proto_field_names report
  assert_all_fields_checked not_func skip_fields = err not_a_function
  assert_all_fields_checked (func args rt_func) skip_fields = do
    fields ← param_struct args
    (short_name, body, param_name) ← source rt_func
    report short_name (
        missing_fields skip_fields (referenced_selectors body param_name)
          (proto_field_names fields))
