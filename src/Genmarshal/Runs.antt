-- ===== src/Genmarshal/Runs.antt =====
-- A package with two messages.
use yellowstone_common.Common.{
  ◌≡◌, ◌↔◌, refl, Bytes, true, false, Option, none, some, List, [], ◌∷◌, is_empty, inl, inr,
}
use yellowstone_common.Common.Text.{codes}
use yellowstone_common.Common.Outcome.{ok}
use yellowstone_common.Common.Sorting.{member, Sorted, Once}
use yellowstone_common.Genmarshal.{
  Decl, gen_decl, func_decl, ident, star_expr, Visited, generated_types,
}
use yellowstone_common.Genmarshal.Marks.{by_pointer}
use yellowstone_common.Genmarshal.Laws.{Declares}
use yellowstone_common.Genmarshal.Code.{File, generated, main}
use yellowstone_common.Genmarshal.Code.Methods.{methods, marshal_methods, main-methods}

abbrev visited : List Visited
visited =
    record { path = codes "pb"; is_dir = true; walk_error = none }
    ∷ record { path = codes "pb/a.pb.go"; is_dir = false; walk_error = none }
    ∷ record { path = codes "pb/b.go"; is_dir = false; walk_error = none }
    ∷ []

-- `func (*User) ProtoMessage()`, `func (Key) ProtoMessage()`, and a method of another name.
abbrev file : Bytes → Option (List Decl)
file path = some (
    gen_decl
    ∷ func_decl (record {
      name = codes "ProtoMessage";
      recv = some (star_expr (ident (codes "User")) ∷ []);
    })
    ∷ func_decl (record { name = codes "ProtoMessage"; recv = some (ident (codes "Key") ∷ []) })
    ∷ func_decl (record { name = codes "Reset"; recv = some (ident (codes "Other") ∷ []) })
    ∷ [])

abbrev messages : List Bytes
messages = codes "Key" ∷ codes "User" ∷ []

two_messages : generated_types file visited ≡ ok messages
unfolding generated_types
two_messages = refl

-- The disk is the last file that was saved.
abbrev save : File → Bytes → Option File → Option File × Option Bytes
save f output_file disk = (some f, none)

Declares-user : Declares file (codes "User") visited
Declares-user = inr (inl (refl, refl, _, refl, inr (inl (by_pointer []))))

main-methods_example :
    (f : File) × (main file save visited (codes "marshal_gen.go") none ≡ (some f, generated 2))
    × (methods f.statements ≡ marshal_methods messages)
    × Sorted messages
    × Once messages
    × ((m : Bytes) → is_empty m ≡ false → (member messages m ≡ true) ↔ Declares file m visited)
main-methods_example =
    main-methods file save visited messages (codes "marshal_gen.go") none some (codes "User")
      two_messages (λ f. refl) refl Declares-user
