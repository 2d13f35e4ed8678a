-- ===== src/Tests/Daemon.antt =====
-- internal/filter/filter.go, internal/config/config.go and internal/events/source.go on concrete
-- rules, settings and events.
use prec.Base.{
  inr, inl, ◌+◌, ◌≡◌, refl, ◌≢◌, ◌↔◌, ◌⊎◌, true, false, none, some, List, [], ◌∷◌, ◌++◌, length,
  pos, ok, err, map_result,
}
use prec.Event.Source.Path.{base}
use prec.Text.{Text, to_lower, codes, is_space, trim_left, trim_right, trim_space}
use prec.Event.{CommandEvent, empty_event, source_user}
use prec.Event.Source.{ProcSnapshot, classify_command_source, classify_file_event_source}
use prec.Event.Source.Laws.{FileFromUser, classify_file_event_source_iff}
use prec.Event.Source.Command.{RunFromShell, classify_command_source_iff}
use prec.Query.Field.{TimeParser}
use prec.Rules.{
  CompiledRule, Matcher, empty_rule, compile_rule, compile_trimmed, compile_rules, keeps,
}
use prec.Rules.Laws.{Verdict, keeps-Verdict, compile_rules-first_error}
use prec.Config.{default_config, normalize, finish_load}
use prec.Config.Laws.{IsValid, finish_load-IsValid}

abbrev no_clock : TimeParser
no_clock = record { rfc3339_nano = λ _. none; rfc3339 = λ _. none }

-- A rule that allows whatever it sees.
abbrev allow_all : CompiledRule
allow_all = record {
  allow = true;
  filter = record { predicates = []; needs_finalized_command = false };
}

abbrev allowing : Matcher
allowing = record { default_allow = false; rules = allow_all ∷ []; user_only = true }

abbrev user_event : CommandEvent
user_event = record empty_event { source = source_user; tty = codes "/dev/pts/1"; uid = 1000 }

keeps-Verdict_example :
    ((true ≡ true) × (user_event.source ≢ source_user) × (keeps allowing user_event ≡ false))
    ⊎ (((true ≡ false) ⊎ (user_event.source ≡ source_user))
        × Verdict (allow_all ∷ []) false user_event (keeps allowing user_event))
keeps-Verdict_example = keeps-Verdict allowing user_event

second_rule_empty : compile_rules no_clock 0 (codes " " ∷ []) ≡ err (0, empty_rule)
unfolding compile_rules compile_rule compile_trimmed trim_space trim_left trim_right is_space
second_rule_empty = refl

compile_rules-first_error_example :
    (before : List Text) × (raw : Text) × (after : List Text) × (compiled : List CompiledRule)
    × (codes " " ∷ [] ≡ before ++ (raw ∷ after))
    × (0 ≡ 0 + length before)
    × (map_result (compile_rule no_clock) before ≡ ok compiled)
    × (compile_rule no_clock raw ≡ err empty_rule)
compile_rules-first_error_example =
    compile_rules-first_error no_clock (codes " " ∷ []) 0 0 empty_rule second_rule_empty

finish_load-IsValid_example :
    (finish_load (λ c. c) default_config false ≡ ok default_config)
    ↔ ((normalize (λ c. c) default_config false ≡ default_config) × IsValid default_config)
finish_load-IsValid_example = finish_load-IsValid (λ c. c) default_config false default_config

abbrev shell_parent : ProcSnapshot
shell_parent = record {
  comm = codes "bash";
  exe = codes "/usr/bin/bash";
  cmdline = codes "-bash";
  tty = codes "/dev/pts/1";
  tty_nr = pos 34817;
}

classify_command_source_iff_example :
    (classify_command_source (λ c. c) user_event (some shell_parent) ≡ source_user)
    ↔ ((p : ProcSnapshot) × (some shell_parent ≡ some p) × RunFromShell (λ c. c) user_event p)
classify_command_source_iff_example =
    classify_command_source_iff (λ c. c) user_event (some shell_parent)

-- The command's own terminal is known and not interactive, and the parent's is used all the same.
null_terminal :
    classify_command_source
      (λ c. c)
      (record user_event { tty = codes "/dev/null" })
      (some shell_parent)
    ≡ source_user
unfolding base to_lower
null_terminal =
    (classify_command_source_iff (λ c. c) (record user_event { tty = codes "/dev/null" })
        (some shell_parent)).1
      (
        shell_parent,
        refl,
        record { terminal = inr (inr (inl (codes "1", refl))); shell = inl (inl refl) },
      )

classify_file_event_source_iff_example :
    (classify_file_event_source (λ c. c) user_event ≡ source_user)
    ↔ FileFromUser (λ c. c) user_event
classify_file_event_source_iff_example = classify_file_event_source_iff (λ c. c) user_event
