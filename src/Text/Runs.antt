-- ===== src/Text/Runs.antt =====
-- Runs of code points with no member of a class, and what splits a text at such runs: the laws of
-- `strings.Split`, `strings.Fields` and `strings.TrimSpace` that a printed text needs.
use prec.Base.{
  ℕ, zero, suc, ◌+◌, ◌-◌, ◌≡◌, refl, sym, ap, ◌∙◌, Bool, true, false, Option, none, some, List, [],
  ◌∷◌, ◌++◌, append-nil, append_assoc, arith, ◌==◌, ==_iff, length,
}
use prec.Text.Search.{index-not_here}
use prec.Text.{
  Text, index, later, is_empty, is_space, trim_left, trim_right, trim_space, has_prefix, split_onto,
  split, field_end, fields_onto, fields,
}

-- No code point of the text has the property.
abbrev pub Avoids : (ℕ → Bool) → Text → Type 0
Avoids p [] = Unit {0}
Avoids p (c ∷ s) = (p c ≡ false) × Avoids p s

pub Avoids-append : (p : ℕ → Bool) (s t : Text) → Avoids p s → Avoids p t → Avoids p (s ++ t)
Avoids-append p [] t h k = k
Avoids-append p (c ∷ s) t h k = (h.0, Avoids-append p s t h.1 k)

-- A text that avoids one class avoids every smaller one.
pub Avoids-mono :
    (p q : ℕ → Bool) → ((c : ℕ) → p c ≡ false → q c ≡ false) → (s : Text) → Avoids p s → Avoids q s
Avoids-mono p q f [] h = tt
Avoids-mono p q f (c ∷ s) h = (f c h.0, Avoids-mono p q f s h.1)

pub is_empty-append : (s t : Text) → is_empty t ≡ false → is_empty (s ++ t) ≡ false
is_empty-append [] t e = e
is_empty-append (d ∷ s) t e = refl

-- `Fields` reads a run without space into the current piece.
fields_onto-append :
    (w rest part : Text)
    → Avoids is_space w
    → fields_onto (w ++ rest) part ≡ fields_onto rest (part ++ w)
unfolding fields_onto
fields_onto-append [] rest part h = rw append-nil
fields_onto-append (c ∷ w) rest part h =
    rw (h.0, fields_onto) (fields_onto-append w rest (part ++ (c ∷ [])) h.1 ∙ rw append_assoc)

-- A run that does not meet the head of the separator is read into the current piece.
split_onto-append :
    (d : ℕ) (ds w rest part : Text)
    → Avoids (λ c. c == d) w
    → split_onto (d ∷ ds) zero (w ++ rest) part ≡ split_onto (d ∷ ds) zero rest (part ++ w)
unfolding split_onto has_prefix
split_onto-append d ds [] rest part h = rw append-nil
split_onto-append d ds (c ∷ w) rest part h =
    rw (h.0, split_onto) (split_onto-append d ds w rest (part ++ (c ∷ [])) h.1 ∙ rw append_assoc)

-- A text that ends in a run without space loses nothing at its end.
trim_right-append :
    (s w : Text) → is_empty w ≡ false → Avoids is_space w → trim_right (s ++ w) ≡ s ++ w
unfolding trim_right
trim_right-append [] [] e h = cc
trim_right-append [] (c ∷ []) e h = rw h.0
trim_right-append [] (c ∷ (d ∷ w)) e h = ground (arith, h.0, trim_right-append [] (d ∷ w) refl h.1)
trim_right-append (c ∷ s) w e h = rw (trim_right-append s w e h, is_empty-append s w e)

-- A text between two runs without space is what `TrimSpace` leaves of it.
pub trim_space-ends :
    (a b s : Text)
    → is_empty a ≡ false
    → Avoids is_space a
    → is_empty b ≡ false
    → Avoids is_space b
    → trim_space (a ++ (s ++ b)) ≡ a ++ (s ++ b)
unfolding trim_space
trim_space-ends [] b s ea ha eb hb = cc
trim_space-ends (c ∷ a) b s ea ha eb hb =
    rw (ha.0, trim_left)
      (ap trim_right (ap (◌∷◌ c) (sym (append_assoc a s b)))
        ∙ trim_right-append (c ∷ (a ++ s)) b eb hb
        ∙ ap (◌∷◌ c) (append_assoc a s b))

-- The code points behind a separator that `Split` has found are skipped.
split_onto-skip :
    (sep ds rest part : Text)
    → split_onto sep (length ds) (ds ++ rest) part ≡ split_onto sep zero rest part
unfolding split_onto
split_onto-skip sep [] rest part = refl
split_onto-skip sep (c ∷ ds) rest part = split_onto-skip sep ds rest part

-- A text begins with itself.
has_prefix-append : (p s : Text) → has_prefix (p ++ s) p ≡ true
unfolding has_prefix
has_prefix-append [] s = refl
has_prefix-append (c ∷ p) s = ground (arith, has_prefix-append p s)

-- At a separator `Split` ends the piece and goes on behind it.
split_onto-sep :
    (d : ℕ) (ds rest part : Text)
    → split_onto (d ∷ ds) zero ((d ∷ ds) ++ rest) part ≡ part ∷ split_onto (d ∷ ds) zero rest []
unfolding split_onto
split_onto-sep d ds rest part =
    let e : suc (length ds) - 1 ≡ length ds = omega arith in
    rw (has_prefix-append (d ∷ ds) rest, split_onto)
      (rw e (ap (◌∷◌ part) (split_onto-skip (d ∷ ds) ds rest [])))

-- A text with two separators splits into its three pieces.
pub split_three :
    (d : ℕ) (a b c : Text)
    → Avoids (λ x. x == d) a
    → Avoids (λ x. x == d) b
    → Avoids (λ x. x == d) c
    → split (a ++ (d ∷ (b ++ (d ∷ c)))) (d ∷ []) ≡ a ∷ b ∷ c ∷ []
unfolding split
split_three d a b c ha hb hc =
    split_onto-append d [] a (d ∷ (b ++ (d ∷ c))) [] ha
    ∙ split_onto-sep d [] (b ++ (d ∷ c)) a
    ∙ ap (◌∷◌ a) (split_onto-append d [] b (d ∷ c) [] hb ∙ split_onto-sep d [] c b)
    ∙ ap (λ (t : List Text). a ∷ b ∷ t) (last ∙ unfold split_onto in refl)
  where
    last : split_onto (d ∷ []) zero c [] ≡ split_onto (d ∷ []) zero [] c
    last =
        sym (ap (λ (t : Text). split_onto (d ∷ []) zero t []) (append-nil c))
        ∙ split_onto-append d [] c [] [] hc

field_end-cons : (a : Text) (rest : List Text) → is_empty a ≡ false → field_end a rest ≡ a ∷ rest
field_end-cons [] rest e = cc
field_end-cons (c ∷ a) rest e = refl

fields_onto_last : (b : Text) → is_empty b ≡ false → Avoids is_space b → fields_onto b [] ≡ b ∷ []
fields_onto_last b e h =
    sym (ap (λ (t : Text). fields_onto t []) (append-nil b))
    ∙ fields_onto-append b [] [] h
    ∙ unfold fields_onto in field_end-cons b [] e

-- Two runs without space, joined by one, are the two fields of the text.
pub fields_two :
    (a b : Text)
    → is_empty a ≡ false
    → Avoids is_space a
    → is_empty b ≡ false
    → Avoids is_space b
    → fields (a ++ (b' ' ∷ b)) ≡ a ∷ b ∷ []
unfolding fields
fields_two a b ea ha eb hb =
    fields_onto-append a (b' ' ∷ b) [] ha
    ∙ unfold fields_onto is_space in
      refl ∙ ap (field_end a) (fields_onto_last b eb hb) ∙ field_end-cons a _ ea

different : (p : ℕ → Bool) (c d : ℕ) → p c ≡ false → p d ≡ true → (c == d) ≡ false
different p c d a h = ground (arith, ==_iff c d)

head_avoids :
    (p : ℕ → Bool) (c d : ℕ) (ds s : Text)
    → p c ≡ false
    → p d ≡ true
    → has_prefix (c ∷ s) (d ∷ ds) ≡ false
unfolding has_prefix
head_avoids p c d ds s a h = rw (different p c d a h)

-- A separator whose head is avoided does not stand in the text, nor at its head.
pub has_prefix-Avoids :
    (p : ℕ → Bool) (d : ℕ) (ds s : Text) → p d ≡ true → Avoids p s → has_prefix s (d ∷ ds) ≡ false
unfolding has_prefix
has_prefix-Avoids p d ds [] h a = refl
has_prefix-Avoids p d ds (c ∷ s) h a = rw (different p c d a.0 h)

pub index-Avoids :
    (p : ℕ → Bool) (d : ℕ) (ds s : Text) → p d ≡ true → Avoids p s → index s (d ∷ ds) ≡ none
index-Avoids p d ds [] h a = unfold index in refl
index-Avoids p d ds (c ∷ s) h a =
    index-not_here c s (d ∷ ds) (has_prefix-Avoids p d ds (c ∷ s) h a)
    ∙ ap later (index-Avoids p d ds s h a.1)

-- The place of a separator behind a text that avoids its head.
abbrev pub shift : ℕ → Option ℕ → Option ℕ
shift k none = none
shift k (some i) = some (k + i)

later-shift : (k : ℕ) (o : Option ℕ) → later (shift k o) ≡ shift (suc k) o
later-shift k none = refl
later-shift k (some i) = ap some (omega arith)

shift_zero : (o : Option ℕ) → o ≡ shift 0 o
shift_zero none = refl
shift_zero (some i) = ap some (omega arith)

pub index-append-Avoids :
    (p : ℕ → Bool) (d : ℕ) (ds w s : Text)
    → p d ≡ true
    → Avoids p w
    → index (w ++ s) (d ∷ ds) ≡ shift (length w) (index s (d ∷ ds))
index-append-Avoids p d ds [] s h a = shift_zero (index s (d ∷ ds))
index-append-Avoids p d ds (c ∷ w) s h a =
    index-not_here c (w ++ s) (d ∷ ds) (head_avoids p c d ds (w ++ s) a.0 h)
    ∙ ap later (index-append-Avoids p d ds w s h a.1)
    ∙ later-shift (length w) (index s (d ∷ ds))
