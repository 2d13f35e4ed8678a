-- ===== src/Window.antt =====
-- internal/cli/event_collection.go: `eventWindow`, a ring of the newest matching rows.
pub mod Ring
pub mod Newest
use prec.Base.{
  ℕ, zero, suc, ◌+◌, ◌-◌, ◌*◌, ◌/◌, ◌%◌, ◌^◌, ◌≤◌, ◌<◌, min, String, ◌≡◌, refl, sym, ap, ap₂, ◌∙◌,
  ◌≡⟨◌⟩◌, ◌∎, ◌≢◌, ◌↔◌, ◌⊎◌, inl, inr, Bool, true, false, not, ◌&&◌, ◌||◌, Option, none, some, List,
  [], ◌∷◌, ◌++◌, map, append-nil, append_assoc, arith, ltb, leb, ◌==◌, if◌then◌else◌, Bool-cases,
  Option-cases, ==_iff, ltb→lt, lt→ltb, leb→le, tests, length, get_elem?, get_or, set, take, drop,
  replicate, length-append, ℤ, pos, negsuc, pos_part, neg_part, ltb_ℤ, leb_ℤ, eqb_ℤ, ◌≤ℤ◌,
  eqb_ℤ_iff, Result, ok, err, ◌>>=◌, bind-eq-ok, map_result,
}
use prec.Event.{CommandEvent, empty_event}

-- `eventWindow`; the capacity of `rows` is not observed.
pub record EventWindow : Type 0 where
  pub rows : List CommandEvent
  pub start : ℕ
  pub count : ℕ
  pub limit : ℕ

-- `newEventWindow`: a negative limit is 0, which means no limit.
unfoldable pub new_event_window : ℤ → EventWindow
new_event_window limit = record { rows = []; start = 0; count = 0; limit = pos_part limit }

-- `eventWindow.Add`. The indices are within the rows once they have been filled up.
unfoldable pub add : EventWindow → CommandEvent → EventWindow
add w ev =
    if w.limit == 0
    then record w { rows = w.rows ++ (ev ∷ []) }
    else if ltb w.count w.limit
    then record w { rows = w.rows ++ (ev ∷ []); count = w.count + 1 }
    else record w { rows = set w.rows w.start ev; start = (w.start + 1) % w.limit }

-- The loop of `Events`, with `left` rounds to go.
unfoldable pub gather : EventWindow → ℕ → ℕ → List CommandEvent
gather w i zero = []
gather w i (suc left) = get_or w.rows ((w.start + i) % w.limit) empty_event ∷ gather w (suc i) left

-- `eventWindow.Events`
unfoldable pub events : EventWindow → List CommandEvent
unfolding gather
events w = if w.limit == 0 || w.start == 0 then w.rows else gather w 0 w.count

-- `Add` for each row of a list.
unfoldable pub add_all : EventWindow → List CommandEvent → EventWindow
unfolding add
add_all w [] = w
add_all w (ev ∷ rows) = add_all (add w ev) rows
