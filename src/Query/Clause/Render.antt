-- ===== src/Query/Clause/Render.antt =====
-- internal/query/filter.go: clauses written as key, operator and value.
use prec.Base.{
  ℕ, suc, ◌+◌, ◌≡◌, refl, ap, ap₂, ◌∙◌, true, false, some, [], ◌∷◌, ◌++◌, arith, length, take, drop,
}
use prec.Text.{Text, is_empty, one_of, trim_space}
use prec.Text.Runs.{Avoids}
use prec.Query.Operator.{operators, find_operator}
use prec.Query.Operator.Laws.{is_operator_code, find_operator-clause}
use prec.Query.Field.{TimeParser}
use prec.Query.Clause.{keyed_clause, parse_clause}

take-length : (xs ys : Text) → take (length xs) (xs ++ ys) ≡ xs
take-length [] ys = refl
take-length (x ∷ xs) ys = ap (◌∷◌ x) (take-length xs ys)

drop-length : (xs ys : Text) → drop (length xs) (xs ++ ys) ≡ ys
drop-length [] ys = refl
drop-length (x ∷ xs) ys = drop-length xs ys

drop-key_op : (key op val : Text) → drop (length key + length op) (key ++ (op ++ val)) ≡ val
drop-key_op [] op val = let e : 0 + length op ≡ length op = omega arith in rw e (drop-length op val)
drop-key_op (c ∷ key) op val =
    let e : suc (length key) + length op ≡ suc (length key + length op) = omega arith in
    rw e (drop-key_op key op val)

parse_clause-found :
    (clock : TimeParser) (clause op : Text) (place : ℕ)
    → find_operator clause ≡ some (op, place)
    → parse_clause clock clause
      ≡ keyed_clause clock
          (trim_space (take place clause))
          op
          (trim_space (drop (place + length op) clause))
parse_clause-found clock clause op place e = unfold parse_clause in rw (e, parse_clause)

-- A clause made of a key, an operator and a value is compiled from exactly these three, trimmed,
-- if the key is not empty and neither key nor value holds a code point of an operator.
pub parse_clause-parts :
    (clock : TimeParser) (key op val : Text)
    → is_empty key ≡ false
    → Avoids is_operator_code key
    → one_of op operators ≡ true
    → Avoids is_operator_code val
    → parse_clause clock (key ++ (op ++ val))
      ≡ keyed_clause clock (trim_space key) op (trim_space val)
parse_clause-parts clock key op val n k h v =
    parse_clause-found clock (key ++ (op ++ val)) op (length key)
      (find_operator-clause key op val n k h v)
    ∙ ap₂ (λ (a b : Text). keyed_clause clock (trim_space a) op (trim_space b))
        (take-length key (op ++ val)) (drop-key_op key op val)
