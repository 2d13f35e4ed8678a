-- ===== src/Capture/Identities.antt =====
-- internal/collector/capture_filter_linux.go: the indices that `compileCaptureFilter` gives to names.
use prec.Base.{
  ℕ, ◌+◌, ◌≤◌, ◌≡◌, refl, sym, ap, ap₂, ◌∙◌, ◌⊎◌, inl, inr, true, false, some, List, [], ◌∷◌, ◌++◌,
  arith, ◌==◌, Bool-cases, Option-cases, length, get_elem?, length-append, ok, err, ok_injective,
}
use mathlib.Core.Path.{subst}
use prec.Base.{Every, Every-map, get_elem?-append_some, get_elem?-append_last}
use prec.Text.{Text, is_empty, equal_iff}
use prec.Capture.{
  CaptureField, uid, gid, pid, comm, CaptureClause, CaptureIdentity, CapturePolicy, names_full,
  capture_identity_max,
}
use prec.Capture.Policy.{number_of, same_identity, index_of, indexed, resolve}

-- A clause on a name stands at the index of its field and name; one on comm or on a number has none.
abbrev pub Resolved : List CaptureIdentity → CaptureClause → Type 0
Resolved identities clause =
    (clause.field ≡ comm)
    ⊎ ((is_empty clause.text ≡ true)
        ⊎ (get_elem? identities clause.identity_index
            ≡ some (record { field = clause.field; name = clause.text })))

-- A policy in the making.
pub record Sound (policy : CapturePolicy) : Type 0 where
  pub bounded : length policy.identities ≤ capture_identity_max
  pub found :
      (identity : CaptureIdentity) (index : ℕ)
      → index_of identity policy.identity_indexes ≡ some index
      → get_elem? policy.identities index ≡ some identity
  pub resolved : Every (Every (Resolved policy.identities)) policy.rules

Resolved-append :
    (identities more : List CaptureIdentity) (clause : CaptureClause)
    → Resolved identities clause
    → Resolved (identities ++ more) clause
Resolved-append identities more clause (inl h) = inl h
Resolved-append identities more clause (inr (inl h)) = inr (inl h)
Resolved-append identities more clause (inr (inr h)) =
    inr (inr (get_elem?-append_some identities more clause.identity_index _ h))

number_of_injective : (f g : CaptureField) → (number_of f == number_of g) ≡ true → f ≡ g
number_of_injective uid uid h = refl
number_of_injective gid gid h = refl
number_of_injective pid pid h = refl
number_of_injective comm comm h = refl
number_of_injective _ _ h = cc

same_identity-eq : (a b : CaptureIdentity) → same_identity a b ≡ true → a ≡ b
same_identity-eq a b h =
    let same_field : a.field ≡ b.field = number_of_injective a.field b.field (ground (arith, h)) in
    let same_name : a.name ≡ b.name = (equal_iff a.name b.name).0 (ground (arith, h)) in
    ap₂ (λ (field : CaptureField) (name : Text). record { field = field; name = name }) same_field
      same_name

index_of-append :
    (identity i : CaptureIdentity) (index k : ℕ) (indexes : List (CaptureIdentity × ℕ))
    → index_of identity (indexes ++ ((i, index) ∷ [])) ≡ some k
    → (index_of identity indexes ≡ some k) ⊎ ((identity ≡ i) × (index ≡ k))
unfolding index_of
index_of-append identity i index k [] h = elim (Bool-cases (same_identity identity i)) [
  | inl e ↦ inr (same_identity-eq identity i e, ground (arith, e))
  | inr e ↦ cc
]
index_of-append identity i index k ((j, n) ∷ indexes) h =
    elim (Bool-cases (same_identity identity j)) [
      | inl e ↦ inl (ground (arith, e))
      | inr e ↦
          let deeper : index_of identity (indexes ++ ((i, index) ∷ [])) ≡ some k =
            ground (arith, e, h) in
          elim (index_of-append identity i index k indexes deeper) [
            | inl p ↦ inl (rw e p)
            | inr q ↦ inr q
          ]
    ]

-- One clause keeps the policy sound and is resolved in it; the policy keeps its rules, and a
-- resolved clause stays resolved.
pub record Step (policy next : CapturePolicy) (clause : CaptureClause) : Type 0 where
  pub sound : Sound next
  pub here : Resolved next.identities clause
  pub kept : (c : CaptureClause) → Resolved policy.identities c → Resolved next.identities c

full_or_room :
    (n : ℕ)
    → n ≤ capture_identity_max
    → (n == capture_identity_max) ≡ false
    → n + 1 ≤ capture_identity_max
full_or_room n h e = ground arith

abbrev identity_of : CaptureClause → CaptureIdentity
identity_of parsed = record { field = parsed.field; name = parsed.text }

known-Step :
    (policy : CapturePolicy) (parsed : CaptureClause) (index : ℕ)
    → Sound policy
    → index_of (identity_of parsed) policy.identity_indexes ≡ some index
    → Step policy policy (record parsed { identity_index = index })
known-Step policy parsed index s h = record {
  sound = s;
  here = inr (inr (s.found (identity_of parsed) index h));
  kept = λ c r. r;
}

-- The policy with one more name.
abbrev with_name : CapturePolicy → CaptureIdentity → CapturePolicy
with_name policy identity = record policy {
  identities = policy.identities ++ (identity ∷ []);
  identity_indexes = policy.identity_indexes ++ ((identity, length policy.identities) ∷ []);
}

with_name-Sound :
    (policy : CapturePolicy) (identity : CaptureIdentity)
    → Sound policy
    → (length policy.identities == capture_identity_max) ≡ false
    → Sound (with_name policy identity)
with_name-Sound policy identity s room = record {
  bounded =
      rw (length-append policy.identities (identity ∷ []))
        (full_or_room (length policy.identities) s.bounded room);
  found = λ i index h.
      elim (index_of-append i identity (length policy.identities) index policy.identity_indexes h) [
        | inl p ↦ get_elem?-append_some policy.identities _ index i (s.found i index p)
        | inr (e, k) ↦
            ap (get_elem? (policy.identities ++ (identity ∷ []))) (sym k)
            ∙ get_elem?-append_last policy.identities identity
            ∙ ap some (sym e)
      ];
  resolved =
      Every-map (Every (Resolved policy.identities)) _
        (λ rule.
          Every-map (Resolved policy.identities) _ (Resolved-append policy.identities _) rule)
        policy.rules s.resolved;
}

new-Step :
    (policy : CapturePolicy) (parsed : CaptureClause)
    → Sound policy
    → (length policy.identities == capture_identity_max) ≡ false
    → Step policy
        (with_name policy (identity_of parsed))
        (record parsed { identity_index = length policy.identities })
new-Step policy parsed s room = record {
  sound = with_name-Sound policy (identity_of parsed) s room;
  here = inr (inr (get_elem?-append_last policy.identities (identity_of parsed)));
  kept = Resolved-append policy.identities _;
}

abbrev StepTo : CapturePolicy → CapturePolicy × CaptureClause → Type 0
StepTo policy p = Step policy p.0 p.1

indexed-Step :
    (policy : CapturePolicy) (parsed : CaptureClause) (p : CapturePolicy × CaptureClause)
    → Sound policy
    → indexed policy parsed (identity_of parsed) ≡ ok p
    → StepTo policy p
unfolding indexed
indexed-Step policy parsed p s h =
    elim (Option-cases (index_of (identity_of parsed) policy.identity_indexes)) [
      | inr (index, e) ↦
          let q : indexed policy parsed (identity_of parsed)
              ≡ ok (policy, record parsed { identity_index = index }) =
            rw (indexed, e) in
          subst (StepTo policy) (ok_injective (sym q ∙ h)) (known-Step policy parsed index s e)
      | inl e ↦ elim (Bool-cases (length policy.identities == capture_identity_max)) [
        | inl full ↦
            let q : indexed policy parsed (identity_of parsed) ≡ err names_full =
              rw (indexed, e, full) in
            cc (sym q ∙ h)
        | inr room ↦
            let q : indexed policy parsed (identity_of parsed)
                ≡ ok (
                  with_name policy (identity_of parsed),
                  record parsed { identity_index = length policy.identities },
                ) =
              rw (indexed, e, room) in
            subst (StepTo policy) (ok_injective (sym q ∙ h)) (new-Step policy parsed s room)
      ]
    ]

-- A clause without a name changes nothing but `hasComm`.
nameless-Step :
    (policy next : CapturePolicy) (parsed : CaptureClause)
    → Sound policy
    → next ≡ record policy { has_comm = next.has_comm }
    → (parsed.field ≡ comm) ⊎ (is_empty parsed.text ≡ true)
    → Step policy next parsed
nameless-Step policy next parsed s e h =
    subst (λ (n : CapturePolicy). Step policy n parsed) (sym e)
      (record {
        sound = record { bounded = s.bounded; found = s.found; resolved = s.resolved };
        here = elim h [ inl c ↦ inl c | inr t ↦ inr (inl t) ];
        kept = λ c r. r;
      })

pub resolve-Step :
    (policy : CapturePolicy) (parsed : CaptureClause) (p : CapturePolicy × CaptureClause)
    → Sound policy
    → resolve policy parsed ≡ ok p
    → StepTo policy p
resolve-Step policy parsed p s h = elim (Bool-cases (number_of parsed.field == number_of comm)) [
  | inl c ↦
      let q : resolve policy parsed ≡ ok (record policy { has_comm = true }, parsed) =
        unfold resolve in rw c in
      subst (StepTo policy) (ok_injective (sym q ∙ h)) (
        nameless-Step policy (record policy { has_comm = true }) parsed s refl
          (inl (number_of_injective parsed.field comm c)))
  | inr c ↦ elim (Bool-cases (is_empty parsed.text)) [
    | inl e ↦
        let q : resolve policy parsed ≡ ok (policy, parsed) = unfold resolve in rw (c, e) in
        subst (StepTo policy) (ok_injective (sym q ∙ h))
          (nameless-Step policy policy parsed s refl (inr e))
    | inr e ↦
        let q : resolve policy parsed ≡ indexed policy parsed (identity_of parsed) =
          unfold resolve in rw (c, e) in
        indexed-Step policy parsed p s (sym q ∙ h)
  ]
]
