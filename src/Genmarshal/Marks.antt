-- ===== src/Genmarshal/Marks.antt =====
-- codegen/genmarshal/main.go: the types that the declarations of a file mark.
use yellowstone_common.Common.{
  ◌≡◌, ◌⊎◌, ◌↔◌, inl, inr, refl, sym, ap, subst, arith, Bytes, true, false, not, ◌||◌,
  if◌then◌else◌, Option, none, some, List, [], ◌∷◌, Bool-cases, is_empty,
}
use yellowstone_common.Common.Compare.{equal, equal_self, equal→≡}
use yellowstone_common.Common.Text.{codes}
use yellowstone_common.Common.Sorting.{member, Once}
use yellowstone_common.Genmarshal.{
  Decl, gen_decl, func_decl, type_name, put_type, message_name, note_method, Expr, ident, star_expr,
  other_expr, note_file,
}

-- The declaration is a method `ProtoMessage` of the type or of pointers to it.
pub data Marks (n : Bytes) : Decl → Type 0 where
  by_value :
      (rs : List Expr)
      → Marks n (func_decl (record { name = codes "ProtoMessage"; recv = some (ident n ∷ rs) }))
  by_pointer :
      (rs : List Expr)
      → Marks n (
          func_decl
            (record { name = codes "ProtoMessage"; recv = some (star_expr (ident n) ∷ rs) }))

Marks-equal :
    (m x n : Bytes) (rs : List Expr)
    → equal m (codes "ProtoMessage") ≡ true
    → x ≡ n
    → Marks n (func_decl (record { name = m; recv = some (ident x ∷ rs) }))
      × Marks n (func_decl (record { name = m; recv = some (star_expr (ident x) ∷ rs) }))
Marks-equal m x n rs e h = rw (h, equal→≡ m (codes "ProtoMessage") e) (by_value rs, by_pointer rs)

message_name-Marks :
    (m : Bytes) (o : Option (List Expr)) (n : Bytes)
    → is_empty n ≡ false
    → message_name (func_decl (record { name = m; recv = o })) ≡ n
    → Marks n (func_decl (record { name = m; recv = o }))
unfolding message_name type_name
message_name-Marks m none n full e = absurd (ground (arith, full, e))
message_name-Marks m (some []) n full e = absurd (ground (arith, full, e))
message_name-Marks m (some (recv ∷ rs)) n full e =
    elim (Bool-cases (equal m (codes "ProtoMessage"))) [
      | inl same ↦
          by_recv recv same (subst (λ b. (if not b then [] else type_name recv) ≡ n) same e)
      | inr apart ↦ absurd (ground (arith, full, e, apart))
    ]
  where
    by_recv :
        (recv : Expr)
        → equal m (codes "ProtoMessage") ≡ true
        → type_name recv ≡ n
        → Marks n (func_decl (record { name = m; recv = some (recv ∷ rs) }))
    by_recv (ident x) same h = (Marks-equal m x n rs same h).0
    by_recv (star_expr (ident x)) same h = (Marks-equal m x n rs same h).1
    by_recv other_expr same h = absurd (ground (arith, full, h))
    by_recv (star_expr other_expr) same h = absurd (ground (arith, full, h))
    by_recv (star_expr (star_expr r)) same h = absurd (ground (arith, full, h))

Marks-message_name : (n : Bytes) (d : Decl) → Marks n d → message_name d ≡ n
unfolding message_name type_name
Marks-message_name n d (by_value rs) = refl
Marks-message_name n d (by_pointer rs) = refl

member-put_type :
    (n m : Bytes) (types : List Bytes) → member (put_type n types) m ≡ (equal n m || member types m)
member-put_type n m types = elim (Bool-cases (member types n)) [
  | inl there ↦ elim (Bool-cases (equal n m)) [
    | inl same ↦ ground (arith, there, same, ap (member types) (equal→≡ n m same))
    | inr apart ↦ ground (arith, there, apart)
  ]
  | inr gone ↦ ground (arith, gone)
]

equal_empty : (a b : Bytes) → is_empty a ≡ true → is_empty b ≡ false → equal a b ≡ false
equal_empty [] [] e f = cc f
equal_empty [] (y ∷ b) e f = refl
equal_empty (x ∷ a) b e f = cc e

member-note_method :
    (d : Decl) (n : Bytes) (types : List Bytes)
    → is_empty n ≡ false
    → member (note_method d types) n ≡ (equal (message_name d) n || member types n)
unfolding note_method
member-note_method d n types full = elim (Bool-cases (is_empty (message_name d))) [
  | inl nothing ↦ ground (arith, nothing, equal_empty (message_name d) n nothing full)
  | inr some_name ↦ ground (arith, some_name, member-put_type (message_name d) n types)
]

-- Some declaration marks the type.
abbrev pub MarksAny : Bytes → List Decl → Type 0
MarksAny n [] = ⊥
MarksAny n (d ∷ ds) = Marks n d ⊎ MarksAny n ds

module _ (n : Bytes) (full : is_empty n ≡ false) where
  equal-Marks : (d : Decl) → (equal (message_name d) n ≡ true) ↔ Marks n d
  unfolding message_name
  equal-Marks gen_decl = (
    λ e. absurd (ground (arith, e, equal_empty [] n refl full)),
    λ h. absurd (ground (arith, full, Marks-message_name n gen_decl h)),
  )
  equal-Marks (func_decl fd) = (
    λ e. message_name-Marks fd.name fd.recv n full (equal→≡ (message_name (func_decl fd)) n e),
    λ h. subst (λ x. equal x n ≡ true) (sym (Marks-message_name n (func_decl fd) h)) (equal_self n),
  )

  pub member-note_file :
      (ds : List Decl) (types : List Bytes)
      → (member (note_file ds types) n ≡ true) ↔ (MarksAny n ds ⊎ (member types n ≡ true))
  unfolding note_file
  member-note_file [] types = (inr, λ h. elim h [ inl no_one ↦ absurd no_one | inr e ↦ e ])
  member-note_file (d ∷ ds) types =
      let rest = member-note_file ds (note_method d types) in
      let one = member-note_method d n types full in
      (
        λ e. elim (rest.0 e) [
          | inl far ↦ inl (inr far)
          | inr noted ↦ elim (Bool-cases (equal (message_name d) n)) [
            | inl here ↦ inl (inl ((equal-Marks d).0 here))
            | inr other ↦ inr (ground (arith, noted, one, other))
          ]
        ],
        λ h. rest.1 (elim h [
          | inl near ↦ elim near [
            | inl here ↦ inr (ground (arith, one, (equal-Marks d).1 here))
            | inr far ↦ inl far
          ]
          | inr old ↦ inr (ground (arith, one, old))
        ]),
      )

put_type-Once : (n : Bytes) (types : List Bytes) → Once types → Once (put_type n types)
put_type-Once n types once = elim (Bool-cases (member types n)) [
  | inl there ↦ ground (arith, there, once)
  | inr gone ↦ ground (arith, gone, once)
]

pub note_file-Once : (ds : List Decl) (types : List Bytes) → Once types → Once (note_file ds types)
unfolding note_file note_method
note_file-Once [] types once = once
note_file-Once (d ∷ ds) types once =
    note_file-Once ds (note_method d types) (elim (Bool-cases (is_empty (message_name d))) [
      | inl nothing ↦ ground (arith, nothing, once)
      | inr some_name ↦ ground (arith, some_name, put_type-Once (message_name d) types once)
    ])
