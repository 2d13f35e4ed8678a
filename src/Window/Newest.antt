-- ===== src/Window/Newest.antt =====
-- internal/cli/event_collection.go: what a window holds of the rows that were added.
use prec.Base.{
  ℕ, zero, suc, ◌+◌, ◌-◌, ◌%◌, ◌≤◌, ◌<◌, min, ◌≡◌, refl, sym, ap, ◌∙◌, inl, inr, true, false, List,
  [], ◌∷◌, ◌++◌, append-nil, append_assoc, arith, ltb, ◌==◌, Bool-cases, ==_iff, ltb→lt, length,
  get_or, set, take, drop, length-append, ℤ, pos, negsuc, pos_part,
}
use mathlib.Core.Path.{subst}
use native.Mathlib.Nat.{mod-lt}
use prec.Base.{drop-get_or, drop_all, length-set}
use prec.Event.{CommandEvent, empty_event}
use prec.Window.{EventWindow, new_event_window, add, gather, events, add_all}
use prec.Window.Ring.{
  add-full, add-young, gather-rotated, length-newest, length-rotated, newest, newest_few,
  newest_step, not_ltb, not_zero, rotated, rotated-set,
}

-- What a window of a positive limit keeps of the rows that it has seen.
record Holds (limit : ℕ) (w : EventWindow) (seen : List CommandEvent) : Type 0 where
  bound : w.limit ≡ limit
  positive : 0 < limit
  counted : w.count ≡ length w.rows
  size : w.count ≤ limit
  inside : w.start < limit
  within : w.start ≤ length w.rows
  young : w.count < limit → w.start ≡ 0
  contents : rotated w.rows w.start ≡ newest limit seen

module _ (limit : ℕ) (w : EventWindow) (seen : List CommandEvent) (v : Holds limit w seen)
    (ev : CommandEvent) where
  length-seen : length w.rows ≡ min (length seen) limit
  length-seen =
      sym (length-rotated w.rows w.start v.within)
      ∙ ap length v.contents
      ∙ length-newest limit seen v.positive

  add_young-Holds :
      w.count < limit
      → Holds limit
          (record w { rows = w.rows ++ (ev ∷ []); count = w.count + 1 })
          (seen ++ (ev ∷ []))
  add_young-Holds few =
      let few_seen : length seen < limit = omega (arith, length-seen) in
      let rows-seen : w.rows ≡ seen =
        sym (append-nil w.rows)
        ∙ sym (ap (rotated w.rows) (v.young few))
        ∙ v.contents
        ∙ newest_few limit seen v.positive (omega arith) in
      record {
        bound = v.bound;
        positive = v.positive;
        counted = omega (arith, v.counted, length-append w.rows (ev ∷ []));
        size = omega arith;
        inside = v.inside;
        within = omega (arith, length-append w.rows (ev ∷ []));
        young = λ _. v.young few;
        contents =
            ap (rotated (w.rows ++ (ev ∷ []))) (v.young few)
            ∙ append-nil _
            ∙ ap (λ (r : List CommandEvent). r ++ (ev ∷ [])) rows-seen
            ∙ sym (
                newest_few limit (seen ++ (ev ∷ [])) v.positive
                  (omega (arith, few_seen, length-append seen (ev ∷ []))));
      }

  add_full-Holds :
      w.count ≡ limit
      → Holds limit
          (record w { rows = set w.rows w.start ev; start = (w.start + 1) % w.limit })
          (seen ++ (ev ∷ []))
  add_full-Holds full =
      let wrapped : (w.start + 1) % w.limit < limit =
        omega (arith, mod-lt (w.start + 1) {m = w.limit} (omega arith)) in
      record {
        bound = v.bound;
        positive = v.positive;
        counted = omega (arith, v.counted, length-set w.rows w.start ev);
        size = v.size;
        inside = wrapped;
        within = omega (arith, wrapped, length-set w.rows w.start ev);
        young = λ few. absurd (omega arith);
        contents =
            rotated-set w.rows w.start w.limit ev (omega (arith, v.counted, v.bound)) (omega arith)
            ∙ sym (
                newest_step limit seen ev (get_or w.rows w.start empty_event)
                  (drop (suc w.start) w.rows ++ take w.start w.rows) v.positive
                  (omega (arith, length-seen))
                  (sym v.contents
                    ∙ ap (λ (r : List CommandEvent). r ++ take w.start w.rows)
                        (drop-get_or w.rows w.start empty_event (omega arith))));
      }

add-Holds :
    (limit : ℕ) (w : EventWindow) (seen : List CommandEvent) (ev : CommandEvent)
    → Holds limit w seen
    → Holds limit (add w ev) (seen ++ (ev ∷ []))
add-Holds limit w seen ev v =
    let limited : (w.limit == 0) ≡ false = not_zero w.limit (omega arith) in
    elim (Bool-cases (ltb w.count w.limit)) [
      | inl few ↦
          subst (λ (u : EventWindow). Holds limit u (seen ++ (ev ∷ [])))
            (sym (add-young w ev limited few))
            (add_young-Holds limit w seen v ev (omega (arith, ltb→lt w.count w.limit few)))
      | inr full ↦
          subst (λ (u : EventWindow). Holds limit u (seen ++ (ev ∷ [])))
            (sym (add-full w ev limited full))
            (add_full-Holds limit w seen v ev
              (omega (arith, not_ltb w.count w.limit full, v.size, v.bound)))
    ]

add_all-Holds :
    (limit : ℕ) (w : EventWindow) (seen rows : List CommandEvent)
    → Holds limit w seen
    → Holds limit (add_all w rows) (seen ++ rows)
unfolding add_all
add_all-Holds limit w seen [] v = subst (Holds limit w) (sym (append-nil seen)) v
add_all-Holds limit w seen (ev ∷ rows) v =
    subst (Holds limit (add_all (add w ev) rows)) (append_assoc seen (ev ∷ []) rows)
      (add_all-Holds limit (add w ev) (seen ++ (ev ∷ [])) rows (add-Holds limit w seen ev v))

events_aligned : (w : EventWindow) → (w.start == 0) ≡ true → events w ≡ w.rows
events_aligned w e = unfold events in ground arith

events_turned :
    (w : EventWindow)
    → (w.limit == 0) ≡ false
    → (w.start == 0) ≡ false
    → events w ≡ gather w 0 w.count
events_turned w a b = unfold events in rw (a, b)

events-Holds :
    (limit : ℕ) (w : EventWindow) (seen : List CommandEvent)
    → Holds limit w seen
    → events w ≡ newest limit seen
events-Holds limit w seen v = elim (Bool-cases (w.start == 0)) [
  | inl aligned ↦
      let zero_start : w.start ≡ 0 = (==_iff w.start 0).0 aligned in
      events_aligned w aligned
      ∙ sym (append-nil w.rows)
      ∙ sym (ap (rotated w.rows) zero_start)
      ∙ v.contents
  | inr turned ↦
      let full : w.count ≡ limit = turned_full turned in
      events_turned w (not_zero w.limit (omega arith)) turned
      ∙ gather-rotated w 0 w.count (omega (arith, v.counted, v.bound)) (omega arith) (omega arith)
      ∙ v.contents
]
  where
    turned_full : (w.start == 0) ≡ false → w.count ≡ limit
    turned_full h = ground (arith, v.young, v.size)

newest_nil : (limit : ℕ) → newest limit [] ≡ []
newest_nil limit = elim (Bool-cases (limit == 0)) [
  | inl e ↦ rw e
  | inr e ↦ rw e (drop_all [] (0 - limit) (omega arith))
]

new-Holds : (n : ℕ) → 0 < n → Holds n (new_event_window (pos n)) []
unfolding new_event_window
new-Holds n h = record {
  bound = refl;
  positive = h;
  counted = refl;
  size = omega arith;
  inside = h;
  within = omega arith;
  young = λ _. refl;
  contents = sym (newest_nil n);
}

add-unlimited :
    (w : EventWindow) (ev : CommandEvent)
    → w.limit ≡ 0
    → add w ev ≡ record w { rows = w.rows ++ (ev ∷ []) }
add-unlimited w ev e =
    let none_left : (w.limit == 0) ≡ true = (==_iff w.limit 0).1 e in unfold add in rw none_left

events-unlimited : (w : EventWindow) → w.limit ≡ 0 → events w ≡ w.rows
events-unlimited w e =
    let none_left : (w.limit == 0) ≡ true = (==_iff w.limit 0).1 e in unfold events in rw none_left

events-add_all_unlimited :
    (w : EventWindow) (rows : List CommandEvent)
    → w.limit ≡ 0
    → events (add_all w rows) ≡ w.rows ++ rows
events-add_all_unlimited w [] e = unfold add_all in events-unlimited w e ∙ sym (append-nil w.rows)
events-add_all_unlimited w (ev ∷ rows) e =
    add_all-cons w ev rows
    ∙ ap (λ (u : EventWindow). events (add_all u rows)) (add-unlimited w ev e)
    ∙ events-add_all_unlimited (record w { rows = w.rows ++ (ev ∷ []) }) rows e
    ∙ append_assoc w.rows (ev ∷ []) rows
  where
    add_all-cons :
        (w : EventWindow) (ev : CommandEvent) (rows : List CommandEvent)
        → events (add_all w (ev ∷ rows)) ≡ events (add_all (add w ev) rows)
    add_all-cons w ev rows = unfold add_all in refl

-- A new window to which rows have been added returns the last `limit` of them, in the order in
-- which they were added, and all of them if the limit is not positive.
pub events-newest :
    (limit : ℤ) (rows : List CommandEvent)
    → events (add_all (new_event_window limit) rows) ≡ newest (pos_part limit) rows
events-newest (pos zero) rows =
    unfold new_event_window in events-add_all_unlimited (new_event_window (pos 0)) rows refl
events-newest (pos (suc n)) rows = events-Holds (suc n) _ rows (
    add_all-Holds (suc n) (new_event_window (pos (suc n))) [] rows
      (new-Holds (suc n) (omega arith)))
events-newest (negsuc n) rows =
    unfold new_event_window in events-add_all_unlimited (new_event_window (negsuc n)) rows refl
