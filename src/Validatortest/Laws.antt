-- ===== src/Validatortest/Laws.antt =====
-- When `AssertAllFieldsChecked` reports nothing, and what it reports.
use yellowstone_common.Common.{
  ◌≡◌, ◌⊎◌, ◌↔◌, inl, inr, refl, sym, ap, ◌∙◌, subst, arith, Bytes, true, false, not, ◌&&◌, Option,
  List, [], ◌∷◌, Bool-cases, All,
}
use yellowstone_common.Common.Compare.{equal, equal→≡}
use yellowstone_common.Common.Outcome.{ok, err, >>=-eq-ok}
use yellowstone_common.Common.Sorting.{
  member, Sorted, sort_strings, sort_strings-Sorted, member-sort_strings,
}
use yellowstone_common.Validatortest.{
  Node, Decl, RuntimeFunc, StructField, GoType, Value, func, not_func, not_referenced,
  proto_field_names, missing_fields, referenced_selectors, param_struct, source, report,
  assert_all_fields_checked,
}
use yellowstone_common.Validatortest.Selectors.{Selects, member-referenced_selectors}

member-missing_fields :
    (skip refs fs : List Bytes) (f : Bytes)
    → member (missing_fields skip refs fs) f
      ≡ (member fs f && (not (member skip f) && not (member refs f)))
unfolding missing_fields
member-missing_fields skip refs [] f = refl
member-missing_fields skip refs (g ∷ fs) f = elim (Bool-cases (equal g f)) [
  | inl same ↦
      let e = equal→≡ g f same in
      ground
        (arith, same, member-missing_fields skip refs fs f, ap (member skip) e, ap (member refs) e)
  | inr apart ↦ ground (arith, apart, member-missing_fields skip refs fs f)
]

-- The field is skipped, or selected of the parameter.
abbrev pub Checked : List Bytes → Bytes → Node → Bytes → Type 0
Checked skip p body f = (member skip f ≡ true) ⊎ Selects p f body

missing-Checked :
    (skip : List Bytes) (p : Bytes) (body : Node) (fs : List Bytes)
    → missing_fields skip (referenced_selectors body p) fs ≡ []
    → All (Checked skip p body) fs
unfolding missing_fields
missing-Checked skip p body [] e = tt
missing-Checked skip p body (f ∷ fs) e = elim (Bool-cases (member skip f)) [
  | inl skipped ↦ (inl skipped, missing-Checked skip p body fs (ground (arith, e, skipped)))
  | inr kept ↦ elim (Bool-cases (member (referenced_selectors body p) f)) [
    | inl there ↦ (
      inr ((member-referenced_selectors body p f).0 there),
      missing-Checked skip p body fs (ground (arith, e, kept, there)),
    )
    | inr gone ↦ absurd (ground (arith, e, kept, gone))
  ]
]

Checked-missing :
    (skip : List Bytes) (p : Bytes) (body : Node) (fs : List Bytes)
    → All (Checked skip p body) fs
    → missing_fields skip (referenced_selectors body p) fs ≡ []
unfolding missing_fields
Checked-missing skip p body [] h = refl
Checked-missing skip p body (f ∷ fs) (inl skipped, h) =
    ground (arith, skipped, Checked-missing skip p body fs h)
Checked-missing skip p body (f ∷ fs) (inr s, h) =
    ground (arith, (member-referenced_selectors body p f).1 s, Checked-missing skip p body fs h)

-- What `AssertAllFieldsChecked` has to go by: the fields of the struct, the name of the function, its body and
-- its first parameter.
module _ (parse_file : Bytes → Option (List Decl)) where
  pub record Resolved (v : Value) : Type 0 where
    pub args : List GoType
    pub rt_func : Option RuntimeFunc
    pub fields : List StructField
    pub short_name : Bytes
    pub body : Node
    pub param_name : Bytes
    pub is_func : v ≡ func args rt_func
    pub is_struct : param_struct args ≡ ok fields
    pub is_source : source parse_file rt_func ≡ ok (short_name, body, param_name)

  assert-report :
      (v : Value) (skip : List Bytes) (r : Resolved v)
      → assert_all_fields_checked parse_file v skip
        ≡ report r.short_name (
            missing_fields skip
              (referenced_selectors r.body r.param_name)
              (proto_field_names r.fields))
  unfolding assert_all_fields_checked
  assert-report v skip r =
      rw (r.is_func, assert_all_fields_checked) (rw r.is_struct (rw r.is_source refl))

  resolved :
      (v : Value) (skip : List Bytes)
      → assert_all_fields_checked parse_file v skip ≡ ok tt
      → Resolved v
  unfolding assert_all_fields_checked
  resolved not_func skip e = absurd (ground (arith, e))
  resolved (func args rt_func) skip e =
      let (fields, is_struct, e') = >>=-eq-ok (param_struct args) _ e in
      let ((short_name, body, param_name), is_source, _) =
        >>=-eq-ok (source parse_file rt_func) _ e' in
      record {
        args = args;
        rt_func = rt_func;
        fields = fields;
        short_name = short_name;
        body = body;
        param_name = param_name;
        is_func = refl;
        is_struct = is_struct;
        is_source = is_source;
      }

  report-ok :
      (short_name : Bytes) (missing : List Bytes) → report short_name missing ≡ ok tt → missing ≡ []
  unfolding report
  report-ok short_name [] e = refl
  report-ok short_name (f ∷ missing) e = absurd (ground (arith, e))

  -- `AssertAllFieldsChecked` reports nothing exactly if it finds the struct, the body and the parameter,
  -- and every field of protoc-gen-go is skipped or selected of the parameter in the body.
  pub assert_all_fields_checked-passes :
      (v : Value) (skip : List Bytes)
      → (assert_all_fields_checked parse_file v skip ≡ ok tt)
        ↔ ((r : Resolved v) × All (Checked skip r.param_name r.body) (proto_field_names r.fields))
  unfolding report
  assert_all_fields_checked-passes v skip = (
    λ e.
        let r = resolved v skip e in
        (
          r,
          missing-Checked skip r.param_name r.body (proto_field_names r.fields)
              (report-ok r.short_name _ (sym (assert-report v skip r) ∙ e)),
        ),
    λ h.
        assert-report v skip h.0
        ∙ ap (report h.0.short_name)
            (Checked-missing skip h.0.param_name h.0.body (proto_field_names h.0.fields) h.1),
  )

  report-err :
      (short_name name : Bytes) (missing listed : List Bytes)
      → report short_name missing ≡ err (not_referenced name listed)
      → (name ≡ short_name) × (listed ≡ sort_strings missing)
  unfolding report
  report-err short_name name [] listed e = absurd (ground (arith, e))
  report-err short_name name (f ∷ missing) listed e = (ground (arith, e), ground (arith, e))

  listed_iff :
      (skip names listed : List Bytes) (p f : Bytes) (body : Node)
      → listed ≡ sort_strings (missing_fields skip (referenced_selectors body p) names)
      → (member listed f ≡ true)
        ↔ ((member names f ≡ true) × (member skip f ≡ false) × ¬ Selects p f body)
  listed_iff skip names listed p f body e =
      let iff = member-referenced_selectors body p f in
      let m =
        ap (λ ts. member ts f) e
        ∙ member-sort_strings (missing_fields skip (referenced_selectors body p) names) f
        ∙ member-missing_fields skip (referenced_selectors body p) names f in
      (
        λ h. (ground (arith, h, m), ground (arith, h, m), λ s. ground (arith, h, m, iff.1 s)),
        λ h. elim (Bool-cases (member (referenced_selectors body p) f)) [
          | inl there ↦ absurd (h.2 (iff.0 there))
          | inr gone ↦ ground (arith, m, h.0, h.1, gone)
        ],
      )

  -- Where `AssertAllFieldsChecked` has found them and reports fields, these are in order, and are
  -- exactly those of protoc-gen-go that are neither skipped nor selected of the parameter.
  pub assert_all_fields_checked-lists :
      (v : Value) (skip : List Bytes) (r : Resolved v) (name : Bytes) (listed : List Bytes)
      (f : Bytes)
      → assert_all_fields_checked parse_file v skip ≡ err (not_referenced name listed)
      → (name ≡ r.short_name)
        × Sorted listed
        × ((member listed f ≡ true) ↔ (
            (member (proto_field_names r.fields) f ≡ true)
            × (member skip f ≡ false)
            × ¬ Selects r.param_name f r.body))
  assert_all_fields_checked-lists v skip r name listed f e =
      let (same, sorted) =
        report-err r.short_name name _ listed (sym (assert-report v skip r) ∙ e) in
      (
        same,
        subst Sorted (sym sorted) (sort_strings-Sorted _),
        listed_iff skip (proto_field_names r.fields) listed r.param_name f r.body sorted,
      )
