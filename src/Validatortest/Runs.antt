-- ===== src/Validatortest/Runs.antt =====
-- A validator of a message with two fields that reads one of them.
use yellowstone_common.Common.{
  ◌≡◌, ◌↔◌, refl, arith, Bytes, true, false, Option, none, some, List, [], ◌∷◌, ◌++◌, All,
}
use yellowstone_common.Common.Text.{codes}
use yellowstone_common.Common.Outcome.{ok, err}
use yellowstone_common.Common.Sorting.{member, Sorted}
use yellowstone_common.Validatortest.{
  Node, ident, selector_expr, other, nil, cons, Decl, func_decl, gen_decl, StructField, GoType,
  pointer, struct_type, RuntimeFunc, Value, func, not_referenced, func_short_name,
  proto_field_names, protobuf, param_struct, source, assert_all_fields_checked,
}
use yellowstone_common.Validatortest.Selectors.{Selects}
use yellowstone_common.Validatortest.Names.{func_short_name-append}
use yellowstone_common.Validatortest.Laws.{
  Resolved, Checked, assert_all_fields_checked-passes, assert_all_fields_checked-lists,
}

abbrev fields : List StructField
fields =
    record { field_name = codes "state"; pkg_path = codes "pb"; tag = [] }
    ∷ record { field_name = codes "Name"; pkg_path = []; tag = (protobuf, codes "bytes,1") ∷ [] }
    ∷ record { field_name = codes "Size"; pkg_path = []; tag = (protobuf, codes "varint,2") ∷ [] }
    ∷ []

-- `if req.Name == "" { … }`
abbrev body : Node
body = other (cons (other (cons (selector_expr (ident (codes "req")) (codes "Name")) nil)) nil)

abbrev file : Bytes → Option (List Decl)
file path = some (
    gen_decl
    ∷ func_decl (record { recv = true; name = codes "Validate"; params = none; body = none })
    ∷ func_decl (record {
      recv = false;
      name = codes "Validate";
      params = some ((codes "req" ∷ []) ∷ []);
      body = some body;
    })
    ∷ [])

abbrev args : List GoType
args = pointer (struct_type fields) ∷ []

abbrev rt_func : Option RuntimeFunc
rt_func = some (record { full_name = codes "evrblk/server.Validate"; file = codes "v.go" })

abbrev v : Value
v = func args rt_func

its_fields : param_struct args ≡ ok fields
unfolding param_struct
its_fields = refl

its_source : source file rt_func ≡ ok (codes "Validate", body, codes "req")
unfolding source
its_source = refl

abbrev resolved : Resolved file v
resolved = record {
  args = args;
  rt_func = rt_func;
  fields = fields;
  short_name = codes "Validate";
  body = body;
  param_name = codes "req";
  is_func = refl;
  is_struct = its_fields;
  is_source = its_source;
}

reports_size :
    assert_all_fields_checked file v []
    ≡ err (not_referenced (codes "Validate") (codes "Size" ∷ []))
unfolding assert_all_fields_checked
reports_size = refl

func_short_name-append_example :
    (func_short_name (codes "evrblk" ++ (47 ∷ (codes "server" ++ (46 ∷ codes "Validate"))))
      ≡ codes "Validate")
    × (func_short_name (codes "server" ++ (46 ∷ codes "Validate")) ≡ codes "Validate")
func_short_name-append_example =
    func_short_name-append (codes "evrblk") (codes "server") (codes "Validate") (omega arith)
      (omega arith)

assert_all_fields_checked-passes_example :
    (assert_all_fields_checked file v (codes "Size" ∷ []) ≡ ok tt) ↔ (
      (r : Resolved file v) × All
        (Checked (codes "Size" ∷ []) r.param_name r.body)
        (proto_field_names r.fields))
assert_all_fields_checked-passes_example =
    assert_all_fields_checked-passes file v (codes "Size" ∷ [])

assert_all_fields_checked-lists_example :
    (codes "Validate" ≡ codes "Validate")
    × Sorted (codes "Size" ∷ [])
    × ((member (codes "Size" ∷ []) (codes "Name") ≡ true) ↔ (
        (member (proto_field_names fields) (codes "Name") ≡ true)
        × (member [] (codes "Name") ≡ false)
        × ¬ Selects (codes "req") (codes "Name") body))
assert_all_fields_checked-lists_example =
    assert_all_fields_checked-lists file v [] resolved (codes "Validate") (codes "Size" ∷ [])
      (codes "Name") reports_size
