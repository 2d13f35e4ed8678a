-- ===== src/Event/Source.antt =====
-- internal/events/source.go: whether an event is the user's or the system's. `strings.ToLower` and
-- `filepath.Base` are modelled in `Text` and `Event.Source.Path`; `lower_rune` is `unicode.ToLower` beyond
-- ASCII. What is read from /proc enters as a `ProcSnapshot`.
pub mod Command
pub mod Laws
pub mod Path
use prec.Base.{
  ℕ, zero, suc, ◌+◌, ◌-◌, ◌*◌, ◌/◌, ◌%◌, ◌^◌, ◌≤◌, ◌<◌, min, String, ◌≡◌, refl, sym, ap, ap₂, ◌∙◌,
  ◌≡⟨◌⟩◌, ◌∎, ◌≢◌, ◌↔◌, ◌⊎◌, inl, inr, Bool, true, false, not, ◌&&◌, ◌||◌, Option, none, some, List,
  [], ◌∷◌, ◌++◌, map, append-nil, append_assoc, arith, ltb, leb, ◌==◌, if◌then◌else◌, Bool-cases,
  Option-cases, ==_iff, ltb→lt, lt→ltb, leb→le, tests, length, get_elem?, get_or, set, take, drop,
  replicate, length-append, ℤ, pos, negsuc, pos_part, neg_part, ltb_ℤ, leb_ℤ, eqb_ℤ, ◌≤ℤ◌,
  eqb_ℤ_iff, Result, ok, err, ◌>>=◌, bind-eq-ok, map_result, Result-cases, ok_injective,
  bind_ok-eq-err,
}
use prec.Text.{Text, codes, is_empty, one_of, equal, trim_space, to_lower, contains, has_prefix}
use prec.Event.{CommandEvent, source_user, source_system}
use Path.{base}

-- `procSnapshot`
pub record ProcSnapshot : Type 0 where
  pub comm : Text
  pub exe : Text
  pub cmdline : Text
  pub tty : Text
  pub tty_nr : ℤ

-- `shellNames`
abbrev shell_names : List Text
shell_names =
    codes "bash"
    ∷ codes "zsh"
    ∷ codes "sh"
    ∷ codes "dash"
    ∷ codes "ksh"
    ∷ codes "fish"
    ∷ codes "csh"
    ∷ codes "tcsh"
    ∷ []

-- `isInteractiveTTY`
unfoldable pub is_interactive_tty : Text → Bool
unfolding equal has_prefix
is_interactive_tty tty =
    if is_empty tty || equal tty (codes "/dev/null")
    then false
    else equal tty (codes "/dev/tty") || has_prefix tty (codes "/dev/pts/")

-- `hasInteractiveTTY` and `hasInteractiveTTYSnapshot`, on the two fields that they read.
unfoldable pub has_interactive_tty : Text → ℤ → Bool
unfolding is_interactive_tty
has_interactive_tty tty tty_nr = is_interactive_tty tty || not (eqb_ℤ tty_nr (pos 0))

-- The snapshot that `isUserShellChildProcess` makes of the event's parent fields.
abbrev pub recorded_parent : CommandEvent → ProcSnapshot
recorded_parent ev = record {
  comm = ev.parent_comm;
  exe = ev.parent_exe;
  cmdline = ev.parent_cmdline;
  tty = ev.parent_tty;
  tty_nr = ev.parent_tty_nr;
}

module _ (lower_rune : ℕ → ℕ) where
  -- `isShellName`
  unfoldable pub is_shell_name : Text → Bool
  unfolding one_of
  is_shell_name s = one_of (to_lower lower_rune (base s)) shell_names

  -- `isUserShellExecution`; no parent is `none`.
  unfoldable pub is_user_shell_execution : CommandEvent → Option ProcSnapshot → Bool
  is_user_shell_execution ev none = false
  is_user_shell_execution ev (some parent) =
      if not (has_interactive_tty ev.tty ev.tty_nr)
        && not (has_interactive_tty parent.tty parent.tty_nr)
      then false
      else is_shell_name parent.comm || is_shell_name parent.exe

  -- `classifyCommandSource`
  unfoldable pub classify_command_source : CommandEvent → Option ProcSnapshot → Text
  classify_command_source ev parent =
      if is_user_shell_execution ev parent then source_user else source_system

  -- `classifyCommandSourceFromLineage`
  unfoldable classify_command_source_from_lineage : CommandEvent → List ProcSnapshot → Text
  classify_command_source_from_lineage ev [] = classify_command_source ev none
  classify_command_source_from_lineage ev (parent ∷ _) = classify_command_source ev (some parent)

  -- `isUserShellChildProcess`
  unfoldable pub is_user_shell_child_process : CommandEvent → Bool
  is_user_shell_child_process ev = is_user_shell_execution ev (some (recorded_parent ev))

  -- `isInteractiveShellSelf`
  unfoldable pub is_interactive_shell_self : CommandEvent → Bool
  is_interactive_shell_self ev =
      if not (has_interactive_tty ev.tty ev.tty_nr)
      then false
      else is_shell_name ev.comm || is_shell_name ev.exe

  -- `isUserShellSelf`
  unfoldable pub is_user_shell_self : CommandEvent → Bool
  is_user_shell_self ev =
      if not (is_shell_name ev.comm) && not (is_shell_name ev.exe) then false else leb 1000 ev.uid

  -- `looksLikeVSCodeRemoteSSHText`
  unfoldable pub looks_like_vscode_remote_ssh_text : Text → Bool
  unfolding contains
  looks_like_vscode_remote_ssh_text s =
      let text = to_lower lower_rune (trim_space s) in
      if is_empty text
      then false
      else if contains text (codes ".vscode-server/")
      then true
      else if contains text (codes "openai.chatgpt-") && contains text (codes "/codex")
      then true
      else contains text (codes "extensionhost") || contains text (codes "remotessh")

  -- `looksLikeVSCodeRemoteSSHArgv`
  unfoldable pub looks_like_vscode_remote_ssh_argv : List Text → Bool
  looks_like_vscode_remote_ssh_argv [] = false
  looks_like_vscode_remote_ssh_argv (arg ∷ argv) =
      if looks_like_vscode_remote_ssh_text arg then true else looks_like_vscode_remote_ssh_argv argv

  -- `isVSCodeRemoteSSHUserProcess`
  unfoldable pub is_vscode_remote_ssh_user_process : CommandEvent → Bool
  is_vscode_remote_ssh_user_process ev =
      if ltb ev.uid 1000
      then false
      else looks_like_vscode_remote_ssh_text ev.exe
        || looks_like_vscode_remote_ssh_text ev.parent_exe
        || looks_like_vscode_remote_ssh_text ev.parent_cmdline
        || looks_like_vscode_remote_ssh_argv ev.argv

  -- `ClassifyFileEventSource`
  unfoldable pub classify_file_event_source : CommandEvent → Text
  classify_file_event_source ev =
      if is_interactive_shell_self ev
      then source_user
      else if is_user_shell_self ev
      then source_user
      else if is_user_shell_child_process ev
      then source_user
      else if is_vscode_remote_ssh_user_process ev
      then source_user
      else if equal ev.source source_user
      then source_user
      else source_system
