-- ===== src/Query/Split/Laws.antt =====
-- internal/query/filter.go: the two splitting loops against `strings.Split`.
use prec.Base.{
  ℕ, zero, suc, ◌+◌, ◌<◌, ◌≡◌, refl, sym, ap, ◌∙◌, inl, inr, true, false, ◌&&◌, none, some, List,
  [], ◌∷◌, ◌++◌, append_assoc, arith, ◌==◌, Bool-cases, Option-cases, length, take, drop,
  length-drop, Result, ok, err, ◌>>=◌, map_result,
}
use mathlib.Core.Path.{fun_ext}
use prec.Text.{Text, codes, is_empty, trim_space, has_prefix, index, split_onto, split}
use prec.Text.Search.{
  split_onto-index_none, split_onto-index_some, index-lt, split_onto-here, split_onto-not_here,
}
use prec.Query.Split.{
  QueryError, empty_clause, token, behind, split_loop, split_by_delimiter, and_loop,
  split_by_and_delimiters,
}

-- The pieces of a text, each trimmed, if none of them is empty then.
abbrev pub tokens : List Text → Result QueryError (List Text)
tokens = map_result token

-- What a loop returns that has collected `out` before.
abbrev onto : List Text → Result QueryError (List Text) → Result QueryError (List Text)
onto out r = r >>= λ ts. ok (out ++ ts)

onto-cons :
    (out ps : List Text) (p : Text)
    → onto out (tokens (p ∷ ps)) ≡ (token p >>= λ t. onto (out ++ (t ∷ [])) (tokens ps))
onto-cons out ps p = shift (token p) (tokens ps)
  where
    inner :
        (t : Text) (r : Result QueryError (List Text))
        → onto out (r >>= λ ys. ok (t ∷ ys)) ≡ onto (out ++ (t ∷ [])) r
    inner t (ok ys) = rw append_assoc
    inner t (err e) = refl

    shift :
        (m : Result QueryError Text) (r : Result QueryError (List Text))
        → onto out (m >>= λ y. r >>= λ ys. ok (y ∷ ys)) ≡ (m >>= λ t. onto (out ++ (t ∷ [])) r)
    shift (ok t) r = inner t r
    shift (err e) r = refl

onto-one :
    (out : List Text) (p : Text)
    → (token p >>= λ t. ok (out ++ (t ∷ []))) ≡ onto out (tokens (p ∷ []))
onto-one out p = go (token p)
  where
    go :
        (m : Result QueryError Text)
        → (m >>= λ t. ok (out ++ (t ∷ []))) ≡ onto out (m >>= λ y. ok (y ∷ []))
    go (ok t) = refl
    go (err e) = refl

and_loop-last :
    (c : ℕ) (part : Text) (out : List Text)
    → and_loop (c ∷ []) part out ≡ and_loop [] (part ++ (c ∷ [])) out
unfolding and_loop
and_loop-last c part out = refl

and_loop-here :
    (c d : ℕ) (s part : Text) (out : List Text)
    → (c == b'&' && d == b'&') ≡ true
    → and_loop (c ∷ d ∷ s) part out ≡ (token part >>= λ t. and_loop s [] (out ++ (t ∷ [])))
unfolding and_loop
and_loop-here c d s part out here = rw (here, and_loop)

and_loop-away :
    (c d : ℕ) (s part : Text) (out : List Text)
    → (c == b'&' && d == b'&') ≡ false
    → and_loop (c ∷ d ∷ s) part out ≡ and_loop (d ∷ s) (part ++ (c ∷ [])) out
unfolding and_loop
and_loop-away c d s part out away = rw (away, and_loop)

-- The loop of `splitByAndDelimiters` gives the pieces at "&&".
and_loop-tokens :
    (s part : Text) (out : List Text)
    → and_loop s part out ≡ onto out (tokens (split_onto (codes "&&") zero s part))
and_loop-tokens [] part out = unfold and_loop split_onto in onto-one out part
and_loop-tokens (c ∷ []) part out =
    and_loop-last c part out
    ∙ and_loop-tokens [] (part ++ (c ∷ [])) out
    ∙ ap (λ (ps : List Text). onto out (tokens ps))
        (sym (split_onto-not_here b'&' (b'&' ∷ []) c [] part (unfold has_prefix in ground arith)))
and_loop-tokens (c ∷ d ∷ s) part out = elim (Bool-cases (c == b'&' && d == b'&')) [
  | inl here ↦
      and_loop-here c d s part out here
      ∙ ap (λ (k : Text → Result QueryError (List Text)). token part >>= k)
          (fun_ext (λ t. and_loop-tokens s [] (out ++ (t ∷ []))))
      ∙ sym (onto-cons out (split_onto (codes "&&") zero s []) part)
      ∙ ap (λ (ps : List Text). onto out (tokens ps))
          (sym
            (split_onto-here b'&' (b'&' ∷ []) c (d ∷ s) part (unfold has_prefix in ground arith)))
  | inr away ↦
      and_loop-away c d s part out away
      ∙ and_loop-tokens (d ∷ s) (part ++ (c ∷ [])) out
      ∙ ap (λ (ps : List Text). onto out (tokens ps))
          (sym (
            split_onto-not_here b'&' (b'&' ∷ []) c (d ∷ s) part
              (unfold has_prefix in ground arith)))
]

split_loop-none :
    (d : ℕ) (ds : Text) (fuel : ℕ) (rest : Text) (out : List Text)
    → index rest (d ∷ ds) ≡ none
    → split_loop (suc fuel) rest (d ∷ ds) out ≡ (token rest >>= λ t. ok (out ++ (t ∷ [])))
unfolding split_loop
split_loop-none d ds fuel rest out e = rw (e, split_loop)

split_loop-some :
    (d : ℕ) (ds : Text) (fuel : ℕ) (rest : Text) (out : List Text) (i : ℕ)
    → index rest (d ∷ ds) ≡ some i
    → split_loop (suc fuel) rest (d ∷ ds) out ≡ (
        token (take i rest) >>= λ t.
        behind
          (drop (i + length (d ∷ ds)) rest)
          (λ next. split_loop fuel next (d ∷ ds) (out ++ (t ∷ []))))
unfolding split_loop
split_loop-some d ds fuel rest out i e = rw (e, split_loop)

behind-tokens :
    (d : ℕ) (ds next : Text) (out : List Text) (k : Text → Result QueryError (List Text))
    → k next ≡ onto out (tokens (split_onto (d ∷ ds) zero next []))
    → behind next k ≡ onto out (tokens (split_onto (d ∷ ds) zero next []))
behind-tokens d ds [] out k e = unfold split_onto trim_space in refl
behind-tokens d ds (c ∷ next) out k e = e

-- With fuel for every code point left, the loop of `splitByDelimiter` gives the pieces.
split_loop-tokens :
    (d : ℕ) (ds : Text) (fuel : ℕ) (rest : Text) (out : List Text)
    → length rest < fuel
    → split_loop fuel rest (d ∷ ds) out ≡ onto out (tokens (split_onto (d ∷ ds) zero rest []))
split_loop-tokens d ds zero rest out h = absurd (omega arith)
split_loop-tokens d ds (suc fuel) rest out h = elim (Option-cases (index rest (d ∷ ds))) [
  | inl none_left ↦
      split_loop-none d ds fuel rest out none_left
      ∙ onto-one out rest
      ∙ ap (λ (ps : List Text). onto out (tokens ps))
          (sym (split_onto-index_none d ds rest [] none_left))
  | inr (i, at) ↦
      let next : Text = drop (i + length (d ∷ ds)) rest in
      let shorter : length next < fuel =
        omega (arith, length-drop (i + length (d ∷ ds)) rest, index-lt d ds rest i at) in
      split_loop-some d ds fuel rest out i at
      ∙ ap (λ (k : Text → Result QueryError (List Text)). token (take i rest) >>= k)
          (fun_ext (λ t.
            behind-tokens d ds next (out ++ (t ∷ [])) _
              (split_loop-tokens d ds fuel next (out ++ (t ∷ [])) shorter)))
      ∙ sym (onto-cons out (split_onto (d ∷ ds) zero next []) (take i rest))
      ∙ ap (λ (ps : List Text). onto out (tokens ps))
          (sym (split_onto-index_some d ds rest [] i at))
]

tokens_empty :
    (s : Text) (d : ℕ) (ds : Text)
    → is_empty s ≡ true
    → err empty_clause ≡ tokens (split s (d ∷ ds))
unfolding split split_onto trim_space
tokens_empty [] d ds e = refl
tokens_empty (c ∷ s) d ds e = cc

onto_nil : (r : Result QueryError (List Text)) → onto [] r ≡ r
onto_nil (ok ts) = refl
onto_nil (err e) = refl

-- `splitByDelimiter`, at a delimiter that is not empty, gives the trimmed pieces that
-- `strings.Split` cuts the trimmed text into, if none of them is empty, and else the error of an
-- empty clause. Its loop always ends.
pub split_by_delimiter-tokens :
    (spec : Text) (d : ℕ) (ds : Text)
    → split_by_delimiter spec (d ∷ ds) ≡ tokens (split (trim_space spec) (d ∷ ds))
unfolding split_by_delimiter
split_by_delimiter-tokens spec d ds = elim (Bool-cases (is_empty (trim_space spec))) [
  | inl none_left ↦ rw none_left (tokens_empty (trim_space spec) d ds none_left)
  | inr some_left ↦ rw some_left (
      split_loop-tokens d ds (suc (length (trim_space spec))) (trim_space spec) [] (omega arith)
      ∙ onto_nil _
      ∙ unfold split in refl)
]

-- `splitByAndDelimiters` is `splitByDelimiter` at "&&", on every text, errors included.
pub split_by_and_delimiters-split_by_delimiter :
    (spec : Text) → split_by_and_delimiters spec ≡ split_by_delimiter spec (codes "&&")
split_by_and_delimiters-split_by_delimiter spec =
    and_side ∙ sym (split_by_delimiter-tokens spec b'&' (b'&' ∷ []))
  where
    and_side : split_by_and_delimiters spec ≡ tokens (split (trim_space spec) (codes "&&"))
    and_side = elim (Bool-cases (is_empty (trim_space spec))) [
      | inl none_left ↦
          unfold split_by_and_delimiters in
          rw none_left (tokens_empty (trim_space spec) b'&' (b'&' ∷ []) none_left)
      | inr some_left ↦
          unfold split_by_and_delimiters split in
          rw some_left (and_loop-tokens (trim_space spec) [] [] ∙ onto_nil _)
    ]
