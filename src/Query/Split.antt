-- ===== src/Query/Split.antt =====
-- internal/query/filter.go: how a query text is cut at "||" and at "&&". An error is a value of
-- `QueryError`, with the texts that the message quotes.
pub mod Laws
use prec.Base.{
  ℕ, zero, suc, ◌+◌, ◌-◌, ◌*◌, ◌/◌, ◌%◌, ◌^◌, ◌≤◌, ◌<◌, min, String, ◌≡◌, refl, sym, ap, ap₂, ◌∙◌,
  ◌≡⟨◌⟩◌, ◌∎, ◌≢◌, ◌↔◌, ◌⊎◌, inl, inr, Bool, true, false, not, ◌&&◌, ◌||◌, Option, none, some, List,
  [], ◌∷◌, ◌++◌, map, append-nil, append_assoc, arith, ltb, leb, ◌==◌, if◌then◌else◌, Bool-cases,
  Option-cases, ==_iff, ltb→lt, lt→ltb, leb→le, tests, length, get_elem?, get_or, set, take, drop,
  replicate, length-append, ℤ, pos, negsuc, pos_part, neg_part, ltb_ℤ, leb_ℤ, eqb_ℤ, ◌≤ℤ◌,
  eqb_ℤ_iff, Result, ok, err, ◌>>=◌, bind-eq-ok, map_result,
}
use prec.Text.{Text, codes, is_empty, trim_space, index}

pub data QueryError : Type 0 where
  empty_clause : QueryError
  invalid_clause : Text → QueryError
  empty_key : QueryError
  empty_value : Text → QueryError
  invalid_key : Text → QueryError
  number_operator : Text → Text → QueryError
  number_value : Text → Text → QueryError
  time_operator : Text → QueryError
  time_value : Text → QueryError
  string_operator : Text → Text → QueryError
  source_value : Text → QueryError
  record_type_value : Text → QueryError
  array_operator : Text → Text → QueryError
  duration_operator : Text → Text → QueryError
  duration_value : Text → QueryError
  -- not an error of the code: the model's loop has run out of fuel, which no input brings about
  out_of_fuel : QueryError

-- `token := strings.TrimSpace(...)`, and the error for an empty token.
abbrev pub token : Text → Result QueryError Text
token part = let t = trim_space part in if is_empty t then err empty_clause else ok t

-- `start >= len(spec)` behind a separator is an error: nothing is left there.
abbrev pub behind : Text → (Text → Result QueryError (List Text)) → Result QueryError (List Text)
behind [] k = err empty_clause
behind (c ∷ next) k = k (c ∷ next)

-- The loop of `splitByDelimiter`. `rest` is `spec[start:]`.
unfoldable pub split_loop : ℕ → Text → Text → List Text → Result QueryError (List Text)
unfolding index
split_loop zero rest delimiter out = err out_of_fuel
split_loop (suc fuel) rest delimiter out = elim (index rest delimiter) [
  | none ↦ token rest >>= λ t. ok (out ++ (t ∷ []))
  | some offset ↦ token (take offset rest) >>= λ t.
      behind (drop (offset + length delimiter) rest)
        (λ next. split_loop fuel next delimiter (out ++ (t ∷ [])))
]

-- `splitByDelimiter`; every round takes off at least the delimiter.
unfoldable pub split_by_delimiter : Text → Text → Result QueryError (List Text)
unfolding split_loop
split_by_delimiter spec delimiter =
    let s = trim_space spec in
    if is_empty s then err empty_clause else split_loop (suc (length s)) s delimiter []

-- The loop of `splitByAndDelimiters` over `spec[i:]`; `part` is `spec[start:i]`.
unfoldable pub and_loop : Text → Text → List Text → Result QueryError (List Text)
and_loop [] part out = token part >>= λ t. ok (out ++ (t ∷ []))
and_loop (c ∷ []) part out = and_loop [] (part ++ (c ∷ [])) out
and_loop (c ∷ d ∷ s) part out = elim (c == b'&' && d == b'&') [
  | true ↦ token part >>= λ t. and_loop s [] (out ++ (t ∷ []))
  | false ↦ and_loop (d ∷ s) (part ++ (c ∷ [])) out
]

-- `splitByAndDelimiters`
unfoldable pub split_by_and_delimiters : Text → Result QueryError (List Text)
unfolding and_loop
split_by_and_delimiters spec =
    let s = trim_space spec in if is_empty s then err empty_clause else and_loop s [] []
