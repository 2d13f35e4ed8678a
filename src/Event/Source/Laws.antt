-- ===== src/Event/Source/Laws.antt =====
-- internal/events/source.go: when an event is the user's.
use prec.Base.{
  ℕ, ◌≤◌, ◌≡◌, refl, ◌↔◌, ◌⊎◌, inl, inr, Bool, true, false, ◌||◌, some, arith, if◌then◌else◌,
}
use prec.Text.{Text, equal, equal_iff}
use prec.Event.{CommandEvent, source_user, source_system}
use prec.Event.Source.{
  ProcSnapshot, has_interactive_tty, is_shell_name, is_user_shell_execution, recorded_parent,
  is_user_shell_child_process, is_interactive_shell_self, is_user_shell_self,
  is_vscode_remote_ssh_user_process, classify_file_event_source, looks_like_vscode_remote_ssh_text,
  looks_like_vscode_remote_ssh_argv,
}

-- A test that chooses between the two sources.
pub pick_iff : (b : Bool) → ((if b then source_user else source_system) ≡ source_user) ↔ (b ≡ true)
pick_iff true = ((λ _. refl), (λ _. refl))
pick_iff false = ((λ e. cc), (λ e. cc))

any_of_five :
    (a b c d e : Bool)
    → ((a || b || c || d || e) ≡ true)
      ↔ (((a || b) ≡ true) ⊎ ((c ≡ true) ⊎ ((d ≡ true) ⊎ (e ≡ true))))
any_of_five a b c d e = ground arith

sum_map :
    {A B C D A' B' C' D' : Type 0}
    → (A → A')
    → (B → B')
    → (C → C')
    → (D → D')
    → A ⊎ (B ⊎ (C ⊎ D))
    → A' ⊎ (B' ⊎ (C' ⊎ D'))
sum_map f g h k (inl a) = inl (f a)
sum_map f g h k (inr (inl b)) = inr (inl (g b))
sum_map f g h k (inr (inr (inl c))) = inr (inr (inl (h c)))
sum_map f g h k (inr (inr (inr d))) = inr (inr (inr (k d)))

module _ (lower_rune : ℕ → ℕ) where
  -- The command or the executable is named like a shell.
  abbrev IsShell : Text → Text → Type 0
  IsShell comm exe = (is_shell_name lower_rune comm ≡ true) ⊎ (is_shell_name lower_rune exe ≡ true)

  -- The event or its parent has an interactive terminal, and the parent is a shell.
  abbrev pub FromShell : CommandEvent → ProcSnapshot → Type 0
  FromShell ev parent =
      ((has_interactive_tty ev.tty ev.tty_nr ≡ true)
        ⊎ (has_interactive_tty parent.tty parent.tty_nr ≡ true))
      × IsShell parent.comm parent.exe

  pub is_user_shell_execution_iff :
      (ev : CommandEvent) (parent : ProcSnapshot)
      → (is_user_shell_execution lower_rune ev (some parent) ≡ true) ↔ FromShell ev parent
  is_user_shell_execution_iff ev parent = (
    (λ h. unfold is_user_shell_execution in (ground arith, ground arith)),
    (λ h. unfold is_user_shell_execution in ground arith),
  )

  -- What makes a file event the user's.
  abbrev pub FileFromUser : CommandEvent → Type 0
  FileFromUser ev =
      (IsShell ev.comm ev.exe × ((has_interactive_tty ev.tty ev.tty_nr ≡ true) ⊎ (1000 ≤ ev.uid)))
      ⊎ (FromShell ev (recorded_parent ev)
          ⊎ (((1000 ≤ ev.uid)
                × ((looks_like_vscode_remote_ssh_text lower_rune ev.exe ≡ true)
                    ⊎ ((looks_like_vscode_remote_ssh_text lower_rune ev.parent_exe ≡ true)
                        ⊎ ((looks_like_vscode_remote_ssh_text lower_rune ev.parent_cmdline ≡ true)
                            ⊎ (looks_like_vscode_remote_ssh_argv lower_rune ev.argv ≡ true)))))
              ⊎ (ev.source ≡ source_user)))

  -- The five tests of `ClassifyFileEventSource`.
  file_tests :
      (ev : CommandEvent)
      → classify_file_event_source lower_rune ev ≡ (
          if is_interactive_shell_self lower_rune ev
            || is_user_shell_self lower_rune ev
            || is_user_shell_child_process lower_rune ev
            || is_vscode_remote_ssh_user_process lower_rune ev
            || equal ev.source source_user
          then source_user
          else source_system)
  file_tests ev = unfold classify_file_event_source in ground arith

  child_iff :
      (ev : CommandEvent)
      → (is_user_shell_child_process lower_rune ev ≡ true) ↔ FromShell ev (recorded_parent ev)
  child_iff ev =
      unfold is_user_shell_child_process in is_user_shell_execution_iff ev (recorded_parent ev)

  self_iff :
      (ev : CommandEvent)
      → ((is_interactive_shell_self lower_rune ev || is_user_shell_self lower_rune ev) ≡ true) ↔ (
          IsShell ev.comm ev.exe
          × ((has_interactive_tty ev.tty ev.tty_nr ≡ true) ⊎ (1000 ≤ ev.uid)))
  self_iff ev = (
    (λ h. unfold is_interactive_shell_self is_user_shell_self in (ground arith, ground arith)),
    (λ h. unfold is_interactive_shell_self is_user_shell_self in ground arith),
  )

  vscode_iff :
      (ev : CommandEvent)
      → (is_vscode_remote_ssh_user_process lower_rune ev ≡ true) ↔ (
          (1000 ≤ ev.uid)
          × ((looks_like_vscode_remote_ssh_text lower_rune ev.exe ≡ true)
              ⊎ ((looks_like_vscode_remote_ssh_text lower_rune ev.parent_exe ≡ true)
                  ⊎ ((looks_like_vscode_remote_ssh_text lower_rune ev.parent_cmdline ≡ true)
                      ⊎ (looks_like_vscode_remote_ssh_argv lower_rune ev.argv ≡ true)))))
  vscode_iff ev = (
    (λ h. unfold is_vscode_remote_ssh_user_process in (ground arith, ground arith)),
    (λ h. unfold is_vscode_remote_ssh_user_process in ground arith),
  )

  -- A file event is the user's exactly when the process is a shell with an interactive terminal or
  -- of a user id from 1000 on; or its recorded parent is a shell and one of the two has an
  -- interactive terminal; or a user id from 1000 on runs it and a text of the process or of its
  -- parent looks like VS Code's remote server; or the event's source is the user already.
  pub classify_file_event_source_iff :
      (ev : CommandEvent)
      → (classify_file_event_source lower_rune ev ≡ source_user) ↔ FileFromUser ev
  classify_file_event_source_iff ev = (to, from)
    where
      source_iff : (equal ev.source source_user ≡ true) ↔ (ev.source ≡ source_user)
      source_iff = equal_iff ev.source source_user

      any_iff :
          ((is_interactive_shell_self lower_rune ev
              || is_user_shell_self lower_rune ev
              || is_user_shell_child_process lower_rune ev
              || is_vscode_remote_ssh_user_process lower_rune ev
              || equal ev.source source_user)
            ≡ true)
          ↔ (((is_interactive_shell_self lower_rune ev || is_user_shell_self lower_rune ev) ≡ true)
              ⊎ ((is_user_shell_child_process lower_rune ev ≡ true)
                  ⊎ ((is_vscode_remote_ssh_user_process lower_rune ev ≡ true)
                      ⊎ (equal ev.source source_user ≡ true))))
      any_iff =
          any_of_five (is_interactive_shell_self lower_rune ev) (is_user_shell_self lower_rune ev)
            (is_user_shell_child_process lower_rune ev)
            (is_vscode_remote_ssh_user_process lower_rune ev) (equal ev.source source_user)

      chosen : (classify_file_event_source lower_rune ev ≡ source_user) ↔ (
          (is_interactive_shell_self lower_rune ev
            || is_user_shell_self lower_rune ev
            || is_user_shell_child_process lower_rune ev
            || is_vscode_remote_ssh_user_process lower_rune ev
            || equal ev.source source_user)
          ≡ true)
      chosen = rw (file_tests ev) (
          pick_iff (
            is_interactive_shell_self lower_rune ev
            || is_user_shell_self lower_rune ev
            || is_user_shell_child_process lower_rune ev
            || is_vscode_remote_ssh_user_process lower_rune ev
            || equal ev.source source_user))

      to : classify_file_event_source lower_rune ev ≡ source_user → FileFromUser ev
      to h =
          sum_map (self_iff ev).0 (child_iff ev).0 (vscode_iff ev).0 source_iff.0
            (any_iff.0 (chosen.0 h))

      from : FileFromUser ev → classify_file_event_source lower_rune ev ≡ source_user
      from h =
          chosen.1
            (any_iff.1 (sum_map (self_iff ev).1 (child_iff ev).1 (vscode_iff ev).1 source_iff.1 h))
