-- ===== src/Output/Fields/Selected.antt =====
-- internal/cli/output_formatter.go: what `parseOutputFields` returns.
use prec.Base.{
  ◌≡◌, refl, sym, ◌∙◌, inl, inr, Bool, true, false, not, ◌&&◌, ◌||◌, List, [], ◌∷◌, ◌++◌, arith,
  Bool-cases, ok, bind-eq-ok, ok_injective,
}
use prec.Base.{Every, Every-append}
use prec.Text.{Text, codes, is_empty, equal, equal_iff, one_of, split, trim_space}
use prec.Output.Fields.{
  is_supported_output_field, default_output_fields, all_output_fields, FieldsError, FieldOp, listed,
  added, removed, Selection, add_fields, without, remove_fields, init_explicit, init_default,
  apply_op, expand_field, read_token, select_field, select_fields, parse_output_fields,
}

-- No field stands twice.
abbrev pub Distinct : List Text → Type 0
Distinct [] = Unit {0}
Distinct (field ∷ fields) = (one_of field fields ≡ false) × Distinct fields

abbrev pub Supported : List Text → Type 0
Supported fields = Every (λ field. is_supported_output_field field ≡ true) fields

-- The variables belong together: `seen` holds the fields.
pub record IsSelection (s : Selection) : Type 0 where
  pub distinct : Distinct s.fields
  pub supported : Supported s.fields
  pub seen : (field : Text) → one_of field s.seen ≡ one_of field s.fields

equal_sym : (a b : Text) → equal a b ≡ equal b a
equal_sym a b = elim (Bool-cases (equal a b)) [
  | inl e ↦ rw ((equal_iff a b).0 e) refl
  | inr e ↦ elim (Bool-cases (equal b a)) [
    | inl f ↦ rw ((equal_iff b a).0 f) refl
    | inr f ↦ e ∙ sym f
  ]
]

one_of-append : (f : Text) (xs ys : List Text) → one_of f (xs ++ ys) ≡ (one_of f xs || one_of f ys)
unfolding one_of
one_of-append f [] ys = refl
one_of-append f (x ∷ xs) ys = ground (arith, one_of-append f xs ys)

Distinct-append :
    (f : Text) (xs : List Text) → Distinct xs → one_of f xs ≡ false → Distinct (xs ++ (f ∷ []))
unfolding one_of
Distinct-append f [] d h = (refl, tt)
Distinct-append f (x ∷ xs) d h =
    let here : one_of x (xs ++ (f ∷ [])) ≡ false =
      one_of-append x xs (f ∷ []) ∙ ground (arith, d.0, equal_sym f x) in
    (here, Distinct-append f xs d.1 (ground arith))

one_of-without :
    (g f : Text) (xs : List Text) → one_of g (without f xs) ≡ (one_of g xs && not (equal g f))
unfolding one_of without
one_of-without g f [] = refl
one_of-without g f (x ∷ xs) = elim (Bool-cases (equal x f)) [
  | inl e ↦
      let same : x ≡ f = (equal_iff x f).0 e in
      let ih = one_of-without g f xs in rw (e, ih, same) (ground arith)
  | inr e ↦ elim (Bool-cases (equal g x)) [
    | inl k ↦ let apart : equal g f ≡ false = rw ((equal_iff g x).0 k) e in rw (e, k, apart) refl
    | inr k ↦ rw (e, k, one_of-without g f xs) refl
  ]
]

Distinct-without : (f : Text) (xs : List Text) → Distinct xs → Distinct (without f xs)
unfolding without
Distinct-without f [] d = tt
Distinct-without f (x ∷ xs) d =
    let rest = Distinct-without f xs d.1 in
    elim (Bool-cases (equal x f)) [
      | inl e ↦ rw e rest
      | inr e ↦ rw e (one_of-without x f xs ∙ rw (d.0) refl, rest)
    ]

Every-without :
    (P : Text → Type 0) (f : Text) (xs : List Text) → Every P xs → Every P (without f xs)
unfolding without
Every-without P f [] h = tt
Every-without P f (x ∷ xs) h =
    let rest = Every-without P f xs h.1 in
    elim (Bool-cases (equal x f)) [ inl e ↦ rw e rest | inr e ↦ rw e (h.0, rest) ]

seen_append :
    (g f : Text) (seen fields : List Text)
    → one_of g seen ≡ one_of g fields
    → one_of g (f ∷ seen) ≡ one_of g (fields ++ (f ∷ []))
unfolding one_of
seen_append g f seen fields h = sym (one_of-append g fields (f ∷ []) ∙ rw (sym h) (ground arith))

add_fields-IsSelection :
    (expanded : List Text) (s : Selection)
    → Supported expanded
    → IsSelection s
    → IsSelection (add_fields expanded s)
unfolding add_fields
add_fields-IsSelection [] s h i = i
add_fields-IsSelection (f ∷ expanded) s h i = elim (Bool-cases (one_of f s.seen)) [
  | inl e ↦ rw e (add_fields-IsSelection expanded s h.1 i)
  | inr e ↦
      let s' : Selection = record s { fields = s.fields ++ (f ∷ []); seen = f ∷ s.seen } in
      rw e (
        add_fields-IsSelection expanded s' h.1 (record {
          distinct = Distinct-append f s.fields i.distinct (sym (i.seen f) ∙ e);
          supported = Every-append _ s.fields (f ∷ []) i.supported (h.0, tt);
          seen = λ g. seen_append g f s.seen s.fields (i.seen g);
        }))
]

remove_fields-IsSelection :
    (expanded : List Text) (s : Selection) → IsSelection s → IsSelection (remove_fields expanded s)
unfolding remove_fields
remove_fields-IsSelection [] s i = i
remove_fields-IsSelection (f ∷ expanded) s i = elim (Bool-cases (one_of f s.seen)) [
  | inr e ↦ rw e (remove_fields-IsSelection expanded s i)
  | inl e ↦
      let s' : Selection = record s { fields = without f s.fields; seen = without f s.seen } in
      rw e (
        remove_fields-IsSelection expanded s' (record {
          distinct = Distinct-without f s.fields i.distinct;
          supported = Every-without _ f s.fields i.supported;
          seen = λ g. one_of-without g f s.seen ∙ rw (i.seen g) (sym (one_of-without g f s.fields));
        }))
]

unfoldable all_supported : List Text → Bool
unfolding is_supported_output_field one_of equal
all_supported [] = true
all_supported (field ∷ fields) = is_supported_output_field field && all_supported fields

all_supported-Supported : (fields : List Text) → all_supported fields ≡ true → Supported fields
unfolding all_supported
all_supported-Supported [] h = tt
all_supported-Supported (field ∷ fields) h =
    (ground arith, all_supported-Supported fields (ground arith))

-- Before the first token there are no fields.
abbrev Begun : Selection → Type 0
Begun s = s.initialized ≡ false → s.fields ≡ []

IsSelection-alike :
    (s t : Selection) → t.fields ≡ s.fields → t.seen ≡ s.seen → IsSelection s → IsSelection t
IsSelection-alike s t e f i = record {
  distinct = rw e i.distinct;
  supported = rw e i.supported;
  seen = λ g. rw (e, f) (i.seen g);
}

init_default-IsSelection : (s : Selection) → Begun s → IsSelection s → IsSelection (init_default s)
unfolding all_supported one_of equal is_supported_output_field
init_default-IsSelection s begun i = elim (Bool-cases s.initialized) [
  | inl e ↦ IsSelection-alike s (init_default s) (rw e refl) (rw e refl) i
  | inr e ↦
      rw (e, begun e)
        (record {
          distinct = (refl, (refl, (refl, (refl, tt))));
          supported = all_supported-Supported default_output_fields refl;
          seen = λ f. refl;
        })
]

init_explicit-IsSelection : (s : Selection) → IsSelection s → IsSelection (init_explicit s)
init_explicit-IsSelection s i = elim (Bool-cases s.initialized) [
  | inl e ↦ IsSelection-alike s (init_explicit s) (rw e refl) (rw e refl) i
  | inr e ↦ rw e (record { distinct = tt; supported = tt; seen = λ f. refl })
]

apply_op-IsSelection :
    (op : FieldOp) (expanded : List Text) (s : Selection)
    → Supported expanded
    → Begun s
    → IsSelection s
    → IsSelection (apply_op op expanded s)
unfolding apply_op
apply_op-IsSelection listed expanded s h b i =
    add_fields-IsSelection expanded (init_explicit s) h (init_explicit-IsSelection s i)
apply_op-IsSelection added expanded s h b i =
    add_fields-IsSelection expanded (init_default s) h (init_default-IsSelection s b i)
apply_op-IsSelection removed expanded s h b i =
    remove_fields-IsSelection expanded (init_default s) (init_default-IsSelection s b i)

add_fields-initialized :
    (expanded : List Text) (s : Selection) → (add_fields expanded s).initialized ≡ s.initialized
unfolding add_fields
add_fields-initialized [] s = refl
add_fields-initialized (f ∷ expanded) s = elim (Bool-cases (one_of f s.seen)) [
  | inl e ↦ rw (add_fields, e) (add_fields-initialized expanded s)
  | inr e ↦
      rw (add_fields, e)
        (add_fields-initialized expanded
          (record s { fields = s.fields ++ (f ∷ []); seen = f ∷ s.seen }))
]

remove_fields-initialized :
    (expanded : List Text) (s : Selection) → (remove_fields expanded s).initialized ≡ s.initialized
unfolding remove_fields
remove_fields-initialized [] s = refl
remove_fields-initialized (f ∷ expanded) s = elim (Bool-cases (one_of f s.seen)) [
  | inl e ↦
      rw (remove_fields, e)
        (remove_fields-initialized expanded
          (record s { fields = without f s.fields; seen = without f s.seen }))
  | inr e ↦ rw (remove_fields, e) (remove_fields-initialized expanded s)
]

apply_op-initialized :
    (op : FieldOp) (expanded : List Text) (s : Selection)
    → (apply_op op expanded s).initialized ≡ true
unfolding apply_op
apply_op-initialized listed expanded s =
    add_fields-initialized expanded (init_explicit s) ∙ ground arith
apply_op-initialized added expanded s =
    add_fields-initialized expanded (init_default s) ∙ ground arith
apply_op-initialized removed expanded s =
    remove_fields-initialized expanded (init_default s) ∙ ground arith

expand_field-Supported :
    (field : Text) (expanded : List Text) → expand_field field ≡ ok expanded → Supported expanded
unfolding expand_field all_supported is_supported_output_field one_of equal
expand_field-Supported field expanded e = elim (Bool-cases (equal field (codes "all"))) [
  | inl a ↦
      rw (sym (ok_injective {E = FieldsError} (rw a at e)))
        (all_supported-Supported all_output_fields refl)
  | inr a ↦ elim (Bool-cases (is_supported_output_field field)) [
    | inl b ↦ rw (sym (ok_injective {E = FieldsError} (rw (a, b) at e))) (b, tt)
    | inr b ↦ cc (rw (a, b) at e)
  ]
]

select_field-IsSelection :
    (raw : Text) (s t : Selection)
    → Begun s
    → IsSelection s
    → select_field raw s ≡ ok t
    → Begun t × IsSelection t
unfolding select_field
select_field-IsSelection raw s t b i e =
    let (read, hr, e1) = bind-eq-ok (read_token s.current_op (trim_space raw)) _ e in
    let (expanded, hx, e2) = bind-eq-ok (expand_field read.1) _ e1 in
    let s' : Selection = record s { current_op = read.0 } in
    let i' : IsSelection s' = record {
      distinct = i.distinct;
      supported = i.supported;
      seen = i.seen;
    } in
    rw (sym (ok_injective {E = FieldsError} e2)) (
      (λ h. cc (sym h ∙ apply_op-initialized read.0 expanded s')),
      apply_op-IsSelection read.0 expanded s' (expand_field-Supported read.1 expanded hx) b i',
    )

select_fields-IsSelection :
    (raw_fields : List Text) (s t : Selection)
    → Begun s
    → IsSelection s
    → select_fields raw_fields s ≡ ok t
    → IsSelection t
unfolding select_fields
select_fields-IsSelection [] s t b i e = rw (sym (ok_injective {E = FieldsError} e)) i
select_fields-IsSelection (raw ∷ raw_fields) s t b i e =
    let (u, h, k) = bind-eq-ok (select_field raw s) _ e in
    let (b', i') = select_field-IsSelection raw s u b i h in
    select_fields-IsSelection raw_fields u t b' i' k

-- The fields that `parseOutputFields` returns are all supported, and none stands twice.
pub parse_output_fields-Distinct :
    (spec : Text) (fields : List Text)
    → parse_output_fields spec ≡ ok fields
    → Distinct fields × Supported fields
unfolding parse_output_fields
parse_output_fields-Distinct spec fields e =
    let s : Selection = record {
      fields = [];
      seen = [];
      current_op = listed;
      initialized = false;
    } in
    elim (Bool-cases (is_empty spec)) [
      | inl a ↦ rw (sym (ok_injective {E = FieldsError} (rw a at e))) (tt, tt)
      | inr a ↦
          let (t, h, k) = bind-eq-ok (select_fields (split spec (codes ",")) s) _ (rw a at e) in
          let i =
            select_fields-IsSelection (split spec (codes ",")) s t (λ _. refl)
              (record { distinct = tt; supported = tt; seen = λ f. refl }) h in
          rw (sym (ok_injective {E = FieldsError} k)) (i.distinct, i.supported)
    ]
