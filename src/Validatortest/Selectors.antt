-- ===== src/Validatortest/Selectors.antt =====
-- What `referencedSelectors` finds in a syntax tree.
use yellowstone_common.Common.{
  ◌≡◌, ◌⊎◌, ◌↔◌, inl, inr, ap, arith, Bytes, true, List, [], Bool-cases,
}
use yellowstone_common.Common.Compare.{equal, equal_self, equal→≡}
use yellowstone_common.Common.Sorting.{member}
use yellowstone_common.Validatortest.{
  Node, Nodes, ident, selector_expr, other, nil, cons, inspect, inspect_all, note_selector,
  referenced_selectors,
}

-- The field `f` is selected of the identifier `p` somewhere in the tree.
abbrev mutual
  pub Selects : Bytes → Bytes → Node → Type 0
  Selects p f (ident x) = ⊥
  Selects p f (selector_expr x sel) = ((x ≡ ident p) × (sel ≡ f)) ⊎ Selects p f x
  Selects p f (other ns) = SelectsAny p f ns

  pub SelectsAny : Bytes → Bytes → Nodes → Type 0
  SelectsAny p f nil = ⊥
  SelectsAny p f (cons n ns) = Selects p f n ⊎ SelectsAny p f ns

note_sound :
    (p f sel : Bytes) (x : Node) (refs : List Bytes)
    → member (note_selector p (selector_expr x sel) refs) f ≡ true
    → ((x ≡ ident p) × (sel ≡ f)) ⊎ (member refs f ≡ true)
unfolding note_selector
note_sound p f sel (ident y) refs h = elim (Bool-cases (equal y p)) [
  | inl e ↦ elim (Bool-cases (equal sel f)) [
    | inl same ↦ inl (ap ident (equal→≡ y p e), equal→≡ sel f same)
    | inr apart ↦ inr (ground (arith, h, e, apart))
  ]
  | inr e ↦ inr (ground (arith, h, e))
]
note_sound p f sel (selector_expr y s) refs h = inr h
note_sound p f sel (other ns) refs h = inr h

mutual
  unfolding inspect note_selector

  inspect_sound :
      (p f : Bytes) (n : Node) (refs : List Bytes)
      → member (inspect (note_selector p) n refs) f ≡ true
      → Selects p f n ⊎ (member refs f ≡ true)
  inspect_sound p f (ident x) refs h = inr h
  inspect_sound p f (selector_expr x sel) refs h =
      elim (inspect_sound p f x (note_selector p (selector_expr x sel) refs) h) [
        | inl deep ↦ inl (inr deep)
        | inr noted ↦ elim (note_sound p f sel x refs noted) [
          | inl at ↦ inl (inl at)
          | inr old ↦ inr old
        ]
      ]
  inspect_sound p f (other ns) refs h = inspect_all_sound p f ns refs h

  inspect_all_sound :
      (p f : Bytes) (ns : Nodes) (refs : List Bytes)
      → member (inspect_all (note_selector p) ns refs) f ≡ true
      → SelectsAny p f ns ⊎ (member refs f ≡ true)
  inspect_all_sound p f nil refs h = inr h
  inspect_all_sound p f (cons n ns) refs h =
      elim (inspect_all_sound p f ns (inspect (note_selector p) n refs) h) [
        | inl far ↦ inl (inr far)
        | inr noted ↦ elim (inspect_sound p f n refs noted) [
          | inl near ↦ inl (inl near)
          | inr old ↦ inr old
        ]
      ]

note_kept :
    (p f : Bytes) (n : Node) (refs : List Bytes)
    → member refs f ≡ true
    → member (note_selector p n refs) f ≡ true
unfolding note_selector
note_kept p f (ident x) refs h = h
note_kept p f (other ns) refs h = h
note_kept p f (selector_expr (ident x) sel) refs h = ground (arith, h)
note_kept p f (selector_expr (selector_expr y s) sel) refs h = h
note_kept p f (selector_expr (other ns) sel) refs h = h

note_complete :
    (p f sel : Bytes) (x : Node) (refs : List Bytes)
    → x ≡ ident p
    → sel ≡ f
    → member (note_selector p (selector_expr x sel) refs) f ≡ true
unfolding note_selector
note_complete p f sel x refs e g = rw (e, g) (ground (arith, equal_self p, equal_self f))

mutual
  unfolding inspect note_selector

  inspect_kept :
      (p f : Bytes) (n : Node) (refs : List Bytes)
      → member refs f ≡ true
      → member (inspect (note_selector p) n refs) f ≡ true
  inspect_kept p f (ident x) refs h = h
  inspect_kept p f (selector_expr x sel) refs h =
      inspect_kept p f x (note_selector p (selector_expr x sel) refs)
        (note_kept p f (selector_expr x sel) refs h)
  inspect_kept p f (other ns) refs h = inspect_all_kept p f ns refs h

  inspect_all_kept :
      (p f : Bytes) (ns : Nodes) (refs : List Bytes)
      → member refs f ≡ true
      → member (inspect_all (note_selector p) ns refs) f ≡ true
  inspect_all_kept p f nil refs h = h
  inspect_all_kept p f (cons n ns) refs h =
      inspect_all_kept p f ns (inspect (note_selector p) n refs) (inspect_kept p f n refs h)

mutual
  unfolding inspect note_selector

  inspect_complete :
      (p f : Bytes) (n : Node) (refs : List Bytes)
      → Selects p f n
      → member (inspect (note_selector p) n refs) f ≡ true
  inspect_complete p f (ident x) refs h = absurd h
  inspect_complete p f (selector_expr x sel) refs (inl (e, g)) =
      inspect_kept p f x (note_selector p (selector_expr x sel) refs)
        (note_complete p f sel x refs e g)
  inspect_complete p f (selector_expr x sel) refs (inr deep) =
      inspect_complete p f x (note_selector p (selector_expr x sel) refs) deep
  inspect_complete p f (other ns) refs h = inspect_all_complete p f ns refs h

  inspect_all_complete :
      (p f : Bytes) (ns : Nodes) (refs : List Bytes)
      → SelectsAny p f ns
      → member (inspect_all (note_selector p) ns refs) f ≡ true
  inspect_all_complete p f nil refs h = absurd h
  inspect_all_complete p f (cons n ns) refs (inl near) =
      inspect_all_kept p f ns (inspect (note_selector p) n refs) (inspect_complete p f n refs near)
  inspect_all_complete p f (cons n ns) refs (inr far) =
      inspect_all_complete p f ns (inspect (note_selector p) n refs) far

-- `referencedSelectors` has a field exactly if it is selected of the parameter somewhere in the body.
pub member-referenced_selectors :
    (body : Node) (p f : Bytes) → (member (referenced_selectors body p) f ≡ true) ↔ Selects p f body
unfolding referenced_selectors
member-referenced_selectors body p f = (
  λ h. elim (inspect_sound p f body [] h) [
    | inl s ↦ s
    | inr no_one ↦ absurd (ground (arith, no_one))
  ],
  inspect_complete p f body [],
)
