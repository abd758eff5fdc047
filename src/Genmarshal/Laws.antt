-- ===== src/Genmarshal/Laws.antt =====
-- Which types `main` generates code for.
use yellowstone_common.Common.{
  ◌≡◌, ◌⊎◌, ◌↔◌, inl, inr, sym, ap, ◌∙◌, subst, arith, Bytes, true, false, not, ◌||◌, Option, some,
  List, [], ◌∷◌, Bool-cases, Option-cases, is_empty,
}
use yellowstone_common.Common.Text.{codes}
use yellowstone_common.Common.Sorting.{
  member, Sorted, Once, sort_strings, sort_strings-Sorted, sort_strings-Once, member-sort_strings,
}
use yellowstone_common.Common.Outcome.{ok, >>=-eq-ok}
use yellowstone_common.Genmarshal.{
  Decl, Visited, has_suffix, note_file, visit_file, walk, find_protobuf_types, generated_types,
}
use yellowstone_common.Genmarshal.Marks.{member-note_file, MarksAny, note_file-Once}

-- The file is one that is read, and declares a message of the name.
abbrev pub DeclaresOne : (Bytes → Option (List Decl)) → Bytes → Visited → Type 0
DeclaresOne parse_file n v =
    (v.is_dir ≡ false)
    × (has_suffix v.path (codes ".pb.go") ≡ true)
    × (ds : List Decl) × (parse_file v.path ≡ some ds)
    × MarksAny n ds

abbrev pub Declares : (Bytes → Option (List Decl)) → Bytes → List Visited → Type 0
Declares parse_file n [] = ⊥
Declares parse_file n (v ∷ vs) = DeclaresOne parse_file n v ⊎ Declares parse_file n vs

module _ (parse_file : Bytes → Option (List Decl)) where
  -- A visit that succeeds passes over the file, or reads it.
  Visit-cases :
      (v : Visited) (types found : List Bytes)
      → visit_file parse_file v types ≡ ok found
      → (((v.is_dir || not (has_suffix v.path (codes ".pb.go"))) ≡ true) × (types ≡ found))
        ⊎ (((v.is_dir || not (has_suffix v.path (codes ".pb.go"))) ≡ false)
            × (ds : List Decl) × (parse_file v.path ≡ some ds)
            × (note_file ds types ≡ found))
  unfolding visit_file
  Visit-cases v types found e = elim (Option-cases v.walk_error) [
    | inr (x, bad) ↦ absurd (ground (arith, e, bad))
    | inl fine ↦ elim (Bool-cases (v.is_dir || not (has_suffix v.path (codes ".pb.go")))) [
      | inl passed ↦ inl (passed, ground (arith, e, fine, passed))
      | inr taken ↦ elim (Option-cases (parse_file v.path)) [
        | inl unread ↦ absurd (ground (arith, e, fine, taken, unread))
        | inr (ds, read) ↦ inr (taken, ds, read, ground (arith, e, fine, taken, read))
      ]
    ]
  ]

  walk-Once :
      (vs : List Visited) (types found : List Bytes)
      → walk parse_file vs types ≡ ok found
      → Once types
      → Once found
  unfolding walk
  walk-Once [] types found e once = subst Once (cc e) once
  walk-Once (v ∷ vs) types found e once =
      let (seen, e1, e2) = >>=-eq-ok (visit_file parse_file v types) _ {b = found} e in
      walk-Once vs seen found e2 (elim (Visit-cases v types seen e1) [
        | inl (passed, same) ↦ subst Once same once
        | inr (taken, ds, read, same) ↦ subst Once same (note_file-Once ds types once)
      ])

  module _ (n : Bytes) (full : is_empty n ≡ false) where
    member-visit_file :
        (v : Visited) (types found : List Bytes)
        → visit_file parse_file v types ≡ ok found
        → (member found n ≡ true) ↔ (DeclaresOne parse_file n v ⊎ (member types n ≡ true))
    member-visit_file v types found e = elim (Visit-cases v types found e) [
      | inl (passed, same) ↦ (
        λ h. inr (subst (λ ts. member ts n ≡ true) (sym same) h),
        λ h. elim h [
          | inl declared ↦ absurd (ground (arith, passed, declared.0, declared.1))
          | inr old ↦ subst (λ ts. member ts n ≡ true) same old
        ],
      )
      | inr (taken, ds, read, same) ↦
          let iff = member-note_file n full ds types in
          (
            λ h. elim (iff.0 (subst (λ ts. member ts n ≡ true) (sym same) h)) [
              | inl marked ↦ inl (ground (arith, taken), ground (arith, taken), ds, read, marked)
              | inr old ↦ inr old
            ],
            λ h.
                subst (λ ts. member ts n ≡ true) same
                  (iff.1 (elim h [
                    | inl (file, suffix, es, read', marked) ↦
                        inl (subst (MarksAny n) (cc (read, read')) marked)
                    | inr old ↦ inr old
                  ])),
          )
    ]

    member-walk :
        (vs : List Visited) (types found : List Bytes)
        → walk parse_file vs types ≡ ok found
        → (member found n ≡ true) ↔ (Declares parse_file n vs ⊎ (member types n ≡ true))
    unfolding walk
    member-walk [] types found e =
        let same : types ≡ found = cc e in
        (
          λ h. inr (subst (λ ts. member ts n ≡ true) (sym same) h),
          λ h. elim h [
            | inl no_one ↦ absurd no_one
            | inr old ↦ subst (λ ts. member ts n ≡ true) same old
          ],
        )
    member-walk (v ∷ vs) types found e =
        let (seen, e1, e2) = >>=-eq-ok (visit_file parse_file v types) _ {b = found} e in
        let one = member-visit_file v types seen e1 in
        let rest = member-walk vs seen found e2 in
        (
          λ h. elim (rest.0 h) [
            | inl far ↦ inl (inr far)
            | inr noted ↦ elim (one.0 noted) [ inl near ↦ inl (inl near) | inr old ↦ inr old ]
          ],
          λ h. rest.1 (elim h [
            | inl declared ↦ elim declared [ inl near ↦ inr (one.1 (inl near)) | inr far ↦ inl far ]
            | inr old ↦ inr (one.1 (inr old))
          ]),
        )

  -- Where the files are all read: the types that `main` generates code for are in order, none is twice, and
  -- a name is among them exactly if a file `.pb.go` declares a method `ProtoMessage` of it or of its pointers.
  pub generated_types-ok :
      (vs : List Visited) (found : List Bytes) (n : Bytes)
      → generated_types parse_file vs ≡ ok found
      → is_empty n ≡ false
      → Sorted found × Once found × ((member found n ≡ true) ↔ Declares parse_file n vs)
  unfolding generated_types find_protobuf_types
  generated_types-ok vs found n e full =
      let (types, e1, e2) = >>=-eq-ok (walk parse_file vs []) _ {b = found} e in
      let same : sort_strings types ≡ found = cc e2 in
      let iff = member-walk n full vs [] types e1 in
      let kept = ap (λ ts. member ts n) (sym same) ∙ member-sort_strings types n in
      (
        subst Sorted same (sort_strings-Sorted types),
        subst Once same (sort_strings-Once types (walk-Once vs [] types e1 tt)),
        (
          λ h. elim (iff.0 (sym kept ∙ h)) [
            | inl d ↦ d
            | inr no_one ↦ absurd (ground (arith, no_one))
          ],
          λ d. kept ∙ iff.1 (inl d),
        ),
      )
