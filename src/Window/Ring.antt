-- ===== src/Window/Ring.antt =====
-- internal/cli/event_collection.go: the arithmetic of a ring of rows, and its newest rows.
use prec.Base.{
  ℕ, zero, suc, ◌+◌, ◌-◌, ◌%◌, ◌≤◌, ◌<◌, min, ◌≡◌, sym, ap, ap₂, ◌∙◌, inl, inr, true, false, List,
  [], ◌∷◌, ◌++◌, append-nil, append_assoc, arith, ltb, ◌==◌, if◌then◌else◌, Bool-cases, ltb→lt,
  length, get_or, set, take, drop, length-append,
}
use native.Mathlib.Nat.{mod-eq_of_lt, mod-eq-sub-mod}
use prec.Base.{
  get_or-append_left, get_or-append_right, get_or-drop, get_or-take, drop-get_or, drop_all,
  take_all, drop-append, take-set_next, drop-set, length-set, length-drop, length-take,
}
use prec.Event.{CommandEvent, empty_event}
use prec.Window.{EventWindow, add, gather}

-- The last `limit` rows, or all of them where there is no limit.
abbrev pub newest : ℕ → List CommandEvent → List CommandEvent
newest limit rows = if limit == 0 then rows else drop (length rows - limit) rows

-- The rows of a full ring, oldest first.
abbrev pub rotated : List CommandEvent → ℕ → List CommandEvent
rotated rows start = drop start rows ++ take start rows

pub length-rotated :
    (rows : List CommandEvent) (start : ℕ)
    → start ≤ length rows
    → length (rotated rows start) ≡ length rows
length-rotated rows start h =
    length-append (drop start rows) (take start rows)
    ∙ omega (arith, length-drop start rows, length-take start rows)

pub not_ltb : (a b : ℕ) → ltb a b ≡ false → b ≤ a
not_ltb a b h = ground arith

get_or-rotated :
    (rows : List CommandEvent) (start i : ℕ)
    → start < length rows
    → i < length rows
    → get_or (rotated rows start) i empty_event
      ≡ get_or rows ((start + i) % length rows) empty_event
get_or-rotated rows start i h k = elim (Bool-cases (ltb i (length (drop start rows)))) [
  | inl low ↦
      get_or-append_left (drop start rows) (take start rows) i empty_event (ltb→lt _ _ low)
      ∙ get_or-drop rows start i empty_event
      ∙ ap (λ (n : ℕ). get_or rows n empty_event)
          (sym (mod-eq_of_lt (omega (arith, ltb→lt _ _ low, length-drop start rows))))
  | inr high ↦
      let past : length (drop start rows) ≤ i = not_ltb i (length (drop start rows)) high in
      let wrap =
        mod-eq-sub-mod {n = start + i} {m = length rows} (omega (arith, length-drop start rows)) in
      let small = mod-eq_of_lt {n = start + i - length rows} {m = length rows} (omega arith) in
      get_or-append_right (drop start rows) (take start rows) i empty_event past
      ∙ get_or-take rows start (i - length (drop start rows)) empty_event
          (omega (arith, length-drop start rows))
      ∙ ap (λ (n : ℕ). get_or rows n empty_event)
          (omega (arith, wrap, small, length-drop start rows))
]

pub gather-rotated :
    (w : EventWindow) (i left : ℕ)
    → length w.rows ≡ w.limit
    → w.start < w.limit
    → i + left ≡ w.limit
    → gather w i left ≡ drop i (rotated w.rows w.start)
unfolding gather
gather-rotated w i zero e h k =
    sym (drop_all _ i (omega (arith, length-rotated w.rows w.start (omega arith))))
gather-rotated w i (suc left) e h k =
    ap₂ ◌∷◌
      (ap (λ (n : ℕ). get_or w.rows ((w.start + i) % n) empty_event) (sym e)
        ∙ sym (get_or-rotated w.rows w.start i (omega arith) (omega arith)))
      (gather-rotated w (suc i) left e h (omega arith))
    ∙ sym (
        drop-get_or (rotated w.rows w.start) i empty_event
          (omega (arith, length-rotated w.rows w.start (omega arith))))

pub not_zero : (n : ℕ) → 0 < n → (n == 0) ≡ false
not_zero n h = ground arith

pub length-newest :
    (limit : ℕ) (seen : List CommandEvent)
    → 0 < limit
    → length (newest limit seen) ≡ min (length seen) limit
length-newest limit seen h =
    rw (not_zero limit h) (length-drop (length seen - limit) seen ∙ omega arith)

-- Behind a write at the oldest row the ring begins one further.
pub rotated-set :
    (rows : List CommandEvent) (s n : ℕ) (ev : CommandEvent)
    → length rows ≡ n
    → s < n
    → rotated (set rows s ev) ((s + 1) % n) ≡ (drop (suc s) rows ++ take s rows) ++ (ev ∷ [])
rotated-set rows s n ev e h = elim (Bool-cases (ltb (s + 1) n)) [
  | inl low ↦
      let next : (s + 1) % n ≡ s + 1 = mod-eq_of_lt (ltb→lt _ _ low) in
      let read = drop-set rows (s + 1) s ev (omega arith) in
      let plus : s + 1 ≡ suc s = omega arith in
      rw (next, take-set_next rows s ev (omega arith), read, append_assoc)
        (ap (λ (k : ℕ). drop k rows ++ (take s rows ++ (ev ∷ []))) plus)
  | inr high ↦
      let last : s + 1 ≡ n = ground (arith, not_ltb (s + 1) n high) in
      let next : (s + 1) % n ≡ 0 = ground (
        arith,
        mod-eq-sub-mod {n = s + 1} {m = n} (omega arith),
        mod-eq_of_lt {n = 0} {m = n} (omega arith),
      ) in
      rw
        (
          next,
          drop_all rows (suc s) (omega arith),
          append-nil,
          ← take-set_next rows s ev (omega arith),
        )
        (sym (take_all (set rows s ev) (s + 1) (omega (arith, length-set rows s ev))))
]

pub add-young :
    (w : EventWindow) (ev : CommandEvent)
    → (w.limit == 0) ≡ false
    → ltb w.count w.limit ≡ true
    → add w ev ≡ record w { rows = w.rows ++ (ev ∷ []); count = w.count + 1 }
add-young w ev a b = unfold add in rw (a, b)

pub add-full :
    (w : EventWindow) (ev : CommandEvent)
    → (w.limit == 0) ≡ false
    → ltb w.count w.limit ≡ false
    → add w ev ≡ record w { rows = set w.rows w.start ev; start = (w.start + 1) % w.limit }
add-full w ev a b = unfold add in rw (a, b)

-- A window that is not full holds every row.
pub newest_few :
    (limit : ℕ) (seen : List CommandEvent)
    → 0 < limit
    → length seen ≤ limit
    → newest limit seen ≡ seen
newest_few limit seen h le =
    let none_left : length seen - limit ≡ 0 = omega arith in rw (not_zero limit h, none_left)

-- One more row takes the place of the oldest.
pub newest_step :
    (limit : ℕ) (seen : List CommandEvent) (ev : CommandEvent) (x : CommandEvent)
    (rest : List CommandEvent)
    → 0 < limit
    → limit ≤ length seen
    → newest limit seen ≡ x ∷ rest
    → newest limit (seen ++ (ev ∷ [])) ≡ rest ++ (ev ∷ [])
newest_step limit seen ev x rest h le e =
    let from : ℕ = length seen - limit in
    let grown = length-append seen (ev ∷ []) in
    let next : length (seen ++ (ev ∷ [])) - limit ≡ suc from = omega (arith, grown) in
    let kept : drop from seen ≡ x ∷ rest = rw (not_zero limit h) at e in
    rw (not_zero limit h, next, drop-append seen (ev ∷ []) (suc from) (omega arith))
      (ap (λ (r : List CommandEvent). r ++ (ev ∷ []))
        (cc (drop-get_or seen from empty_event (omega arith))))
