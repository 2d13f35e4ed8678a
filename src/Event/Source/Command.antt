-- ===== src/Event/Source/Command.antt =====
-- internal/events/source.go: the condition on which README.md ("Source classification") makes a command
-- the user's, spelled out.
use prec.Base.{
  ℕ, ◌≡◌, refl, sym, ap₂, ◌∙◌, ◌≢◌, ◌↔◌, ◌⊎◌, inl, inr, true, not, ◌||◌, Option, none, some, List,
  [], ◌∷◌, ◌++◌, map, arith, if◌then◌else◌, Bool-cases, ℤ, pos, eqb_ℤ, eqb_ℤ_iff,
}
use mathlib.Core.Path.{subst}
use prec.Text.{Text, codes, equal, equal_iff, one_of, has_prefix, to_lower}
use prec.Event.{CommandEvent, source_user, source_system}
use prec.Event.Source.Path.{base}
use prec.Event.Source.{
  ProcSnapshot, is_interactive_tty, has_interactive_tty, is_shell_name, is_user_shell_execution,
  classify_command_source,
}
use prec.Event.Source.Laws.{pick_iff, is_user_shell_execution_iff, FromShell}

-- `/dev/tty`, a path below `/dev/pts/`, or a terminal number other than 0.
abbrev pub IsTerminal : Text → ℤ → Type 0
IsTerminal tty tty_nr =
    (tty ≡ codes "/dev/tty")
    ⊎ (((rest : Text) × (tty ≡ codes "/dev/pts/" ++ rest)) ⊎ (tty_nr ≢ pos 0))

prefix_to : (s p : Text) → has_prefix s p ≡ true → (rest : Text) × (s ≡ p ++ rest)
unfolding has_prefix
prefix_to s [] h = (s, refl)
prefix_to [] (c ∷ p) h = cc
prefix_to (d ∷ s) (c ∷ p) h =
    let same : d ≡ c = ground arith in
    let more : has_prefix s p ≡ true = ground arith in
    let (rest, e) = prefix_to s p more in (rest, ap₂ ◌∷◌ same e)

is_interactive_tty-true :
    (tty : Text)
    → is_interactive_tty tty ≡ true
    → (tty ≡ codes "/dev/tty") ⊎ ((rest : Text) × (tty ≡ codes "/dev/pts/" ++ rest))
unfolding is_interactive_tty
is_interactive_tty-true tty h =
    let one : (equal tty (codes "/dev/tty") ≡ true) ⊎ (has_prefix tty (codes "/dev/pts/") ≡ true) =
      ground arith in
    elim one [
      | inl e ↦ inl ((equal_iff tty (codes "/dev/tty")).0 e)
      | inr e ↦ inr (prefix_to tty (codes "/dev/pts/") e)
    ]

has_interactive_tty_iff :
    (tty : Text) (tty_nr : ℤ) → (has_interactive_tty tty tty_nr ≡ true) ↔ IsTerminal tty tty_nr
unfolding has_interactive_tty is_interactive_tty equal has_prefix
has_interactive_tty_iff tty tty_nr = (to, from)
  where
    to : (is_interactive_tty tty || not (eqb_ℤ tty_nr (pos 0))) ≡ true → IsTerminal tty tty_nr
    to h = elim (Bool-cases (is_interactive_tty tty)) [
      | inl e ↦ elim (is_interactive_tty-true tty e) [ inl a ↦ inl a | inr a ↦ inr (inl a) ]
      | inr e ↦ inr (inr (λ z. cc (rw ((eqb_ℤ_iff tty_nr (pos 0)).1 z) at (rw e at h))))
    ]

    from : IsTerminal tty tty_nr → (is_interactive_tty tty || not (eqb_ℤ tty_nr (pos 0))) ≡ true
    from (inl e) = rw e refl
    from (inr (inl (rest, e))) = rw e refl
    from (inr (inr different)) = elim (Bool-cases (eqb_ℤ tty_nr (pos 0))) [
      | inl e ↦ absurd (different ((eqb_ℤ_iff tty_nr (pos 0)).0 e))
      | inr e ↦ rw e (ground arith)
    ]

-- One of some texts.
abbrev pub Among : Text → List Text → Type 0
Among key [] = ⊥
Among key (k ∷ ks) = (key ≡ k) ⊎ Among key ks

one_of-Among : (key : Text) (ks : List Text) → (one_of key ks ≡ true) ↔ Among key ks
unfolding one_of
one_of-Among key [] = ((λ h. cc), (λ h. absurd h))
one_of-Among key (k ∷ ks) =
    let here = equal_iff key k in
    let there = one_of-Among key ks in
    ((λ h. ground (arith, here, there)), (λ h. ground (arith, here, there)))

-- The names of the shells.
abbrev pub shells : List Text
shells = map codes ("bash" ∷ "zsh" ∷ "sh" ∷ "dash" ∷ "ksh" ∷ "fish" ∷ "csh" ∷ "tcsh" ∷ [])

either_iff : {A B A' B' : Type 0} → A ↔ A' → B ↔ B' → (A ⊎ B) ↔ (A' ⊎ B')
either_iff f g = (
  (λ s. elim s [ inl a ↦ inl (f.0 a) | inr b ↦ inr (g.0 b) ]),
  (λ s. elim s [ inl a ↦ inl (f.1 a) | inr b ↦ inr (g.1 b) ]),
)

module _ (lower_rune : ℕ → ℕ) where
  -- The last part of the path is a shell's, in whatever case.
  abbrev pub NamesShell : Text → Type 0
  NamesShell path = Among (to_lower lower_rune (base path)) shells

  is_shell_name-NamesShell :
      (path : Text) → (is_shell_name lower_rune path ≡ true) ↔ NamesShell path
  unfolding is_shell_name
  is_shell_name-NamesShell path = one_of-Among (to_lower lower_rune (base path)) shells

  -- One of the two has a terminal, and the parent is a shell by its name or its executable.
  pub record RunFromShell (ev : CommandEvent) (parent : ProcSnapshot) : Type 0 where
    pub terminal : IsTerminal ev.tty ev.tty_nr ⊎ IsTerminal parent.tty parent.tty_nr
    pub shell : NamesShell parent.comm ⊎ NamesShell parent.exe

  FromShell-RunFromShell :
      (ev : CommandEvent) (p : ProcSnapshot) → FromShell lower_rune ev p ↔ RunFromShell ev p
  FromShell-RunFromShell ev p =
      let terminals =
        either_iff (has_interactive_tty_iff ev.tty ev.tty_nr)
          (has_interactive_tty_iff p.tty p.tty_nr) in
      let names = either_iff (is_shell_name-NamesShell p.comm) (is_shell_name-NamesShell p.exe) in
      (
        (λ h. record { terminal = terminals.0 h.0; shell = names.0 h.1 }),
        (λ r. (terminals.1 r.terminal, names.1 r.shell)),
      )

  asked :
      (ev : CommandEvent) (p : ProcSnapshot)
      → classify_command_source lower_rune ev (some p)
        ≡ (if is_user_shell_execution lower_rune ev (some p) then source_user else source_system)
  unfolding classify_command_source
  asked ev p = refl

  known_parent :
      (ev : CommandEvent) (p : ProcSnapshot)
      → (classify_command_source lower_rune ev (some p) ≡ source_user) ↔ RunFromShell ev p
  known_parent ev p =
      let test = is_user_shell_execution_iff lower_rune ev p in
      let spelled = FromShell-RunFromShell ev p in
      let chosen = pick_iff (is_user_shell_execution lower_rune ev (some p)) in
      (
        (λ h. spelled.0 (test.0 (chosen.0 (sym (asked ev p) ∙ h)))),
        (λ r. asked ev p ∙ chosen.1 (test.1 (spelled.1 r))),
      )

  unknown_parent : (ev : CommandEvent) → classify_command_source lower_rune ev none ≡ source_system
  unfolding classify_command_source is_user_shell_execution
  unknown_parent ev = refl

  -- A command is the user's exactly when its parent is known; the terminal of the command or that of the
  -- parent is `/dev/tty` or below `/dev/pts/`, or has a number other than 0, where the parent's counts
  -- also if the command's own terminal is known and is none of these; and the last part of the parent's
  -- name or executable is, in lower case, bash, zsh, sh, dash, ksh, fish, csh or tcsh.
  pub classify_command_source_iff :
      (ev : CommandEvent) (parent : Option ProcSnapshot)
      → (classify_command_source lower_rune ev parent ≡ source_user)
        ↔ ((p : ProcSnapshot) × (parent ≡ some p) × RunFromShell ev p)
  classify_command_source_iff ev none = ((λ h. cc (sym (unknown_parent ev) ∙ h)), (λ h. cc h.1))
  classify_command_source_iff ev (some p) = (
    (λ h. (p, refl, (known_parent ev p).0 h)),
    (λ (q, same, r). let q-p : q ≡ p = cc in (known_parent ev p).1 (subst (RunFromShell ev) q-p r)),
  )
