-- ===== src/Genmarshal/Code/Methods.antt =====
-- The methods that the generated code declares.
use yellowstone_common.Common.{
  ◌≡◌, ◌↔◌, refl, ap, ◌∙◌, arith, true, false, is_empty, length, Bytes, Option, none, some, List,
  [], ◌∷◌,
}
use yellowstone_common.Common.Text.{codes}
use yellowstone_common.Common.Outcome.{ok, >>=-eq-ok}
use yellowstone_common.Common.Sorting.{member, sort_strings, Sorted, Once}
use yellowstone_common.Genmarshal.{Decl, Visited, find_protobuf_types, generated_types}
use yellowstone_common.Genmarshal.Laws.{Declares, generated_types-ok}
use yellowstone_common.Genmarshal.Code.{
  Token, func, id, op, dot, params, block, return, call, Statement, done, ◌▹◌, end, with_code, File,
  types_code, marshal_file, generated, generate_marshal_code, generate_found, main,
}

-- A method with a pointer receiver, whose body returns a call of another method of the receiver.
pub record Method : Type 0 where
  pub type_name : Bytes
  pub name : Bytes
  pub delegate : Bytes

-- The type of a receiver `(m *T)`.
abbrev pub receiver_type : Token → Option Bytes
receiver_type t = elim t [
  | params (with_code (id m ▹ op star ▹ id n ▹ done) end) ↦ some n
  | _ ↦ none
]

-- The method that `{ return m.f(…) }` calls.
abbrev pub delegate_of : Statement → Option Bytes
delegate_of done = none
delegate_of (t ▹ rest) =
    let later = delegate_of rest in
    elim t [
      | block (with_code (return (id m ▹ dot f ▹ call args ▹ done) ▹ done) end) ↦ some f
      | _ ↦ later
    ]

-- The method that a statement declares, if it declares one.
abbrev pub method_of : Statement → Option Method
method_of s = elim s [
  | func ▹ recv ▹ id name ▹ rest ↦ elim (receiver_type recv) as (λ o. Option Method) [
    | none ↦ none
    | some t ↦ elim (delegate_of rest) as (λ o. Option Method) [
      | none ↦ none
      | some f ↦ some (record { type_name = t; name = name; delegate = f })
    ]
  ]
  | _ ↦ none
]

abbrev pub methods : List Statement → List Method
methods [] = []
methods (s ∷ ss) =
    let rest = methods ss in
    elim (method_of s) as (λ o. List Method) [ none ↦ rest | some m ↦ m ∷ rest ]

-- For each type the method that reads, and the one that writes.
abbrev pub marshal_methods : List Bytes → List Method
marshal_methods [] = []
marshal_methods (t ∷ ts) =
    record { type_name = t; name = codes "UnmarshalBinary"; delegate = codes "UnmarshalVT" }
    ∷ record { type_name = t; name = codes "MarshalBinary"; delegate = codes "MarshalVT" }
    ∷ marshal_methods ts

methods-types_code : (types : List Bytes) → methods (types_code types) ≡ marshal_methods types
unfolding types_code
methods-types_code [] = refl
methods-types_code (t ∷ ts) =
    ap
      (λ (ms : List Method).
        record { type_name = t; name = codes "UnmarshalBinary"; delegate = codes "UnmarshalVT" }
        ∷ record { type_name = t; name = codes "MarshalBinary"; delegate = codes "MarshalVT" }
        ∷ ms)
      (methods-types_code ts)

module _ {ℓ} {Disk E : Type ℓ} (parse_file : Bytes → Option (List Decl))
    (save : File → Bytes → Disk → Disk × Option E) where
  generate_found-saved :
      (types : List Bytes) (output_file : Bytes) (disk : Disk) (written : File → Disk) (n : Bytes)
      → ((f : File) → save f output_file disk ≡ (written f, none))
      → member (sort_strings types) n ≡ true
      → generate_found parse_file save types output_file disk
        ≡ (written (marshal_file (sort_strings types)), generated (length (sort_strings types)))
  unfolding generate_found generate_marshal_code sort_strings
  generate_found-saved [] output_file disk written n saves some_type =
      absurd (ground (arith, some_type))
  generate_found-saved (t ∷ ts) output_file disk written n saves some_type =
      rw (saves (marshal_file (sort_strings (t ∷ ts)))) refl

  -- Where the files are all read, one of them declares a method `ProtoMessage`, and saving succeeds: `main` saves
  -- one file and ends well, with the number of types. Its methods with pointer receivers are `UnmarshalBinary`
  -- and `MarshalBinary` of each type, in the order of the types; these are in order, none is twice, and a name is
  -- among them exactly if a file `.pb.go` declares a method `ProtoMessage` of it or of its pointers.
  pub main-methods :
      (vs : List Visited) (found : List Bytes) (output_file : Bytes) (disk : Disk)
      (written : File → Disk) (n : Bytes)
      → generated_types parse_file vs ≡ ok found
      → ((f : File) → save f output_file disk ≡ (written f, none))
      → is_empty n ≡ false
      → Declares parse_file n vs
      → (f : File) × (main parse_file save vs output_file disk
          ≡ (written f, generated (length found)))
        × (methods f.statements ≡ marshal_methods found)
        × Sorted found
        × Once found
        × ((m : Bytes) → is_empty m ≡ false → (member found m ≡ true) ↔ Declares parse_file m vs)
  unfolding main marshal_file generated_types
  main-methods vs found output_file disk written n e saves full declared =
      let (types, e1, e2) = >>=-eq-ok (find_protobuf_types parse_file vs) _ {b = found} e in
      let same : sort_strings types ≡ found = cc e2 in
      let (sorted, once, iff) = generated_types-ok parse_file vs found n e full in
      let some_type : member (sort_strings types) n ≡ true =
        ap (λ ts. member ts n) same ∙ iff.1 declared in
      (
        marshal_file found,
        rw (e1, main)
            (generate_found-saved types output_file disk written n saves some_type
              ∙ ap (λ ts. (written (marshal_file ts), generated (length ts))) same),
        methods-types_code found,
        sorted,
        once,
        λ m h. (generated_types-ok parse_file vs found m e h).2,
      )
