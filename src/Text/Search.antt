-- ===== src/Text/Search.antt =====
-- Laws of `strings.Index` and of `strings.Split`.
use prec.Base.{
  ℕ, zero, suc, ◌+◌, ◌-◌, ◌<◌, ◌≡◌, refl, sym, ap, ◌∙◌, inl, inr, true, false, Option, none, some,
  [], ◌∷◌, ◌++◌, append-nil, append_assoc, arith, if◌then◌else◌, Bool-cases, length, take, drop,
}
use prec.Text.{Text, has_prefix, later, index, split_onto}

split_onto-drop : (sep s : Text) (k : ℕ) → split_onto sep k s [] ≡ split_onto sep zero (drop k s) []
unfolding split_onto
split_onto-drop sep s zero = refl
split_onto-drop sep [] (suc k) = refl
split_onto-drop sep (c ∷ s) (suc k) = split_onto-drop sep s k

later-none : (o : Option ℕ) → later o ≡ none → o ≡ none
later-none none h = refl
later-none (some i) h = cc

later-some : (o : Option ℕ) (k : ℕ) → later o ≡ some k → (i : ℕ) × (o ≡ some i) × (k ≡ suc i)
later-some none k h = cc
later-some (some i) k h = (i, refl, ground arith)

-- One code point of `strings.Split`: a separator begins here, or none does.
pub split_onto-here :
    (d : ℕ) (ds : Text) (c : ℕ) (s part : Text)
    → has_prefix (c ∷ s) (d ∷ ds) ≡ true
    → split_onto (d ∷ ds) zero (c ∷ s) part
      ≡ part ∷ split_onto (d ∷ ds) zero (drop (length ds) s) []
unfolding split_onto
split_onto-here d ds c s part here =
    let e : suc (length ds) - 1 ≡ length ds = omega arith in
    rw (here, split_onto) (rw e (ap (◌∷◌ part) (split_onto-drop (d ∷ ds) s (length ds))))

pub split_onto-not_here :
    (d : ℕ) (ds : Text) (c : ℕ) (s part : Text)
    → has_prefix (c ∷ s) (d ∷ ds) ≡ false
    → split_onto (d ∷ ds) zero (c ∷ s) part ≡ split_onto (d ∷ ds) zero s (part ++ (c ∷ []))
unfolding split_onto
split_onto-not_here d ds c s part away = rw (away, split_onto)

pub index-step :
    (c : ℕ) (s sep : Text)
    → index (c ∷ s) sep ≡ (if has_prefix (c ∷ s) sep then some 0 else later (index s sep))
unfolding index
index-step c s sep = refl

index-here : (c : ℕ) (s sep : Text) → has_prefix (c ∷ s) sep ≡ true → index (c ∷ s) sep ≡ some 0
unfolding index
index-here c s sep here = rw here

pub index-not_here :
    (c : ℕ) (s sep : Text)
    → has_prefix (c ∷ s) sep ≡ false
    → index (c ∷ s) sep ≡ later (index s sep)
unfolding index
index-not_here c s sep away = rw away

-- A text in which the separator does not stand is one piece.
pub split_onto-index_none :
    (d : ℕ) (ds s part : Text)
    → index s (d ∷ ds) ≡ none
    → split_onto (d ∷ ds) zero s part ≡ (part ++ s) ∷ []
split_onto-index_none d ds [] part h = unfold split_onto in rw append-nil
split_onto-index_none d ds (c ∷ s) part h = elim (Bool-cases (has_prefix (c ∷ s) (d ∷ ds))) [
  | inl here ↦ cc (index-here c s (d ∷ ds) here)
  | inr away ↦
      let tail : index s (d ∷ ds) ≡ none =
        later-none (index s (d ∷ ds)) (sym (index-not_here c s (d ∷ ds) away) ∙ h) in
      split_onto-not_here d ds c s part away
      ∙ split_onto-index_none d ds s (part ++ (c ∷ [])) tail
      ∙ rw append_assoc
]

-- Where the separator stands first, the first piece ends.
pub split_onto-index_some :
    (d : ℕ) (ds s part : Text) (i : ℕ)
    → index s (d ∷ ds) ≡ some i
    → split_onto (d ∷ ds) zero s part
      ≡ (part ++ take i s) ∷ split_onto (d ∷ ds) zero (drop (i + length (d ∷ ds)) s) []
split_onto-index_some d ds [] part i h = unfold index in cc
split_onto-index_some d ds (c ∷ s) part i h = elim (Bool-cases (has_prefix (c ∷ s) (d ∷ ds))) [
  | inl here ↦
      let first : i ≡ 0 = ground (arith, index-here c s (d ∷ ds) here) in
      let e : i + length (d ∷ ds) ≡ suc (length ds) = omega arith in
      split_onto-here d ds c s part here ∙ rw (e, first, append-nil)
  | inr away ↦
      let (j, tail, e) =
        later-some (index s (d ∷ ds)) i (sym (index-not_here c s (d ∷ ds) away) ∙ h) in
      let e' : i + length (d ∷ ds) ≡ suc (j + length (d ∷ ds)) = omega arith in
      split_onto-not_here d ds c s part away
      ∙ split_onto-index_some d ds s (part ++ (c ∷ [])) j tail
      ∙ rw (e', e, append_assoc)
]

pub index-lt : (d : ℕ) (ds s : Text) (i : ℕ) → index s (d ∷ ds) ≡ some i → i < length s
unfolding index
index-lt d ds [] i h = cc
index-lt d ds (c ∷ s) i h = ground (arith, index-lt d ds s (i - 1))
