-- ===== src/Collect/Views/Same.antt =====
-- Rows that differ in the fields of an end record alone, and event ids that are used once.
use prec.Base.{
  ℕ, zero, suc, ◌≡◌, refl, sym, ap, ◌≢◌, false, Option, some, List, [], ◌∷◌, ◌++◌, length,
  get_elem?, set, ℤ,
}
use mathlib.Core.Path.{subst}
use prec.Text.{Text, is_empty}
use prec.Event.{CommandEvent}
use prec.Event.RecordType
use prec.Query.Clause.StartView.{with_end}

-- The row is the other one with some values in the fields that an end record fills in.
abbrev pub SameStart : CommandEvent → CommandEvent → Type 0
SameStart row start = (t : Text) × (d : Option ℤ) × (x : Option ℤ) × (row ≡ with_end start t d x)

abbrev pub SameStarts : List CommandEvent → List CommandEvent → Type 0
SameStarts [] [] = Unit {0}
SameStarts (row ∷ rows) (start ∷ starts) = SameStart row start × SameStarts rows starts
SameStarts _ _ = ⊥

pub self : (ev : CommandEvent) → SameStart ev ev
self ev = (ev.end_timestamp, ev.duration_ns, ev.exit_status, refl)

pub SameStarts-append :
    (rows starts more others : List CommandEvent)
    → SameStarts rows starts
    → SameStarts more others
    → SameStarts (rows ++ more) (starts ++ others)
SameStarts-append [] [] more others h k = k
SameStarts-append (r ∷ rows) (s ∷ starts) more others h k =
    (h.0, SameStarts-append rows starts more others h.1 k)
SameStarts-append [] (s ∷ starts) more others h k = absurd h
SameStarts-append (r ∷ rows) [] more others h k = absurd h

pub SameStarts-set :
    (rows starts : List CommandEvent) (k : ℕ) (row start : CommandEvent)
    → SameStarts rows starts
    → get_elem? starts k ≡ some start
    → SameStart row start
    → SameStarts (set rows k row) starts
SameStarts-set [] [] k row start h e w = tt
SameStarts-set (r ∷ rows) (s ∷ starts) zero row start h e w =
    (subst (SameStart row) (sym (some_injective e)) w, h.1)
  where
    some_injective : {a b : CommandEvent} → some a ≡ some b → a ≡ b
    some_injective p = cc
SameStarts-set (r ∷ rows) (s ∷ starts) (suc k) row start h e w =
    (h.0, SameStarts-set rows starts k row start h.1 e w)
SameStarts-set [] (s ∷ starts) k row start h e w = absurd h
SameStarts-set (r ∷ rows) [] k row start h e w = absurd h

pub SameStarts-length :
    (rows starts : List CommandEvent) → SameStarts rows starts → length rows ≡ length starts
SameStarts-length [] [] h = refl
SameStarts-length (r ∷ rows) (s ∷ starts) h = ap suc (SameStarts-length rows starts h.1)
SameStarts-length [] (s ∷ starts) h = absurd h
SameStarts-length (r ∷ rows) [] h = absurd h

-- No start record of the list has the event id.
abbrev pub NoStart : Text → List CommandEvent → Type 0
NoStart id [] = Unit {0}
NoStart id (ev ∷ raw) = (ev.record_type ≡ RecordType.start → ev.event_id ≢ id) × NoStart id raw

-- Start records have event ids, and no two the same.
abbrev pub StartsDistinct : List CommandEvent → Type 0
StartsDistinct [] = Unit {0}
StartsDistinct (ev ∷ raw) =
    (ev.record_type ≡ RecordType.start → (is_empty ev.event_id ≡ false) × NoStart ev.event_id raw)
    × StartsDistinct raw
