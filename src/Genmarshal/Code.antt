-- ===== src/Genmarshal/Code.antt =====
-- codegen/genmarshal/main.go: the code that is generated, and `main`. The calls of github.com/dave/jennifer, which
-- only note what is to be written, are data here; `File.Save` is a parameter.
pub mod Methods
use yellowstone_common.Common.{ℕ, Bytes, Option, none, some, List, [], ◌∷◌, ◌++◌, length}
use yellowstone_common.Common.Text.{codes}
use yellowstone_common.Common.Outcome.{Outcome, ok, err, panic}
use yellowstone_common.Common.Sorting.{sort_strings}
use yellowstone_common.Genmarshal.{Decl, Visited, Error, find_protobuf_types}

infixr 5 ◌▹◌
-- A call on a `jen.Statement`.
mutual
  pub data Token : Type 0 where
    comment : Bytes → Token
    line : Token
    var : Token
    func : Token
    error : Token
    byte : Token
    index : Token
    nil : Token
    id : Bytes → Token
    qual : Bytes → Bytes → Token
    op : Bytes → Token
    dot : Bytes → Token
    parens : Statement → Token
    return : Statement → Token
    params : Group → Token
    call : Group → Token
    block : Group → Token

  pub data Statement : Type 0 where
    done : Statement
    ◌▹◌ : Token → Statement → Statement

  pub data Group : Type 0 where
    end : Group
    with_code : Statement → Group → Group

-- `jen.File`: `NewFile`, `HeaderComment` and `ImportName`, and the statements.
pub record File : Type 0 where
  pub package_name : Bytes
  pub header_comment : Bytes
  pub import_name : Bytes × Bytes
  pub statements : List Statement

unfoldable pub one : Statement → Group
one s = with_code s end

-- `*typeName`
unfoldable pub pointer : Bytes → Statement
pointer type_name = op (codes "*") ▹ id type_name ▹ done

-- `f.Var().Id("_").Qual("encoding", interface).Op("=").Parens(Op("*").Id(typeName)).Parens(Nil())`
unfoldable pub interface_check : Bytes → Bytes → Statement
unfolding pointer
interface_check interface type_name =
    var
    ▹ id (codes "_")
    ▹ qual (codes "encoding") interface
    ▹ op (codes "=")
    ▹ parens (pointer type_name)
    ▹ parens (nil ▹ done)
    ▹ done

-- `Params(Id("m").Op("*").Id(typeName))`
unfoldable pub receiver : Bytes → Token
unfolding one
receiver type_name = params (one (id (codes "m") ▹ op (codes "*") ▹ id type_name ▹ done))

-- `Id("data").Index().Byte()`
unfoldable pub data_bytes : Statement
data_bytes = id (codes "data") ▹ index ▹ byte ▹ done

unfoldable pub unmarshal_binary : Bytes → Statement
unfolding receiver one data_bytes
unmarshal_binary type_name =
    func
    ▹ receiver type_name
    ▹ id (codes "UnmarshalBinary")
    ▹ params (one data_bytes)
    ▹ error
    ▹ block (
        one (
          return (
            id (codes "m")
            ▹ dot (codes "UnmarshalVT")
            ▹ call (one (id (codes "data") ▹ done))
            ▹ done)
          ▹ done))
    ▹ done

unfoldable pub marshal_binary : Bytes → Statement
unfolding receiver one data_bytes
marshal_binary type_name =
    func
    ▹ receiver type_name
    ▹ id (codes "MarshalBinary")
    ▹ params end
    ▹ params (with_code data_bytes (one (id (codes "err") ▹ error ▹ done)))
    ▹ block (one (return (id (codes "m") ▹ dot (codes "MarshalVT") ▹ call end ▹ done) ▹ done))
    ▹ done

-- The body of the loop over the types.
unfoldable pub type_code : Bytes → List Statement
unfolding interface_check unmarshal_binary marshal_binary
type_code type_name =
    (comment type_name ▹ done)
    ∷ (line ▹ done)
    ∷ interface_check (codes "BinaryMarshaler") type_name
    ∷ interface_check (codes "BinaryUnmarshaler") type_name
    ∷ (line ▹ done)
    ∷ unmarshal_binary type_name
    ∷ (line ▹ done)
    ∷ marshal_binary type_name
    ∷ (line ▹ done)
    ∷ []

unfoldable pub types_code : List Bytes → List Statement
unfolding type_code
types_code [] = []
types_code (type_name ∷ types) = type_code type_name ++ types_code types

unfoldable pub marshal_file : List Bytes → File
unfolding types_code
marshal_file types = record {
  package_name = codes "corepb";
  header_comment = codes "Code generated by genmarshal. DO NOT EDIT.";
  import_name = (codes "encoding", codes "encoding");
  statements = types_code types;
}

-- How `main` ends.
pub data Exit {ℓ} (E : Type ℓ) : Type ℓ where
  failed_to_find : Error → Exit E
  no_types : Exit E
  failed_to_generate : E → Exit E
  generated : ℕ → Exit E
  panics : Exit E

-- `File.Save`, from the disk and the name of the file to the disk, and the error if there is one.
module _ {ℓ} {Disk E : Type ℓ} (parse_file : Bytes → Option (List Decl))
    (save : File → Bytes → Disk → Disk × Option E) where
  unfoldable pub generate_marshal_code : List Bytes → Bytes → Disk → Disk × Option E
  unfolding marshal_file
  generate_marshal_code types output_file disk = save (marshal_file types) output_file disk

  -- What `main` does with the types that it has found.
  unfoldable pub generate_found : List Bytes → Bytes → Disk → Disk × Exit E
  unfolding generate_marshal_code
  generate_found [] output_file disk = (disk, no_types)
  generate_found (t ∷ ts) output_file disk =
      let types = sort_strings (t ∷ ts) in
      let (disk', failure) = generate_marshal_code types output_file disk in
      (disk', elim failure [ none ↦ generated (length types) | some e ↦ failed_to_generate e ])

  unfoldable pub main : List Visited → Bytes → Disk → Disk × Exit E
  unfolding find_protobuf_types generate_found
  main visited output_file disk = elim (find_protobuf_types parse_file visited) [
    | err e ↦ (disk, failed_to_find e)
    | panic ↦ (disk, panics)
    | ok types ↦ generate_found types output_file disk
  ]
