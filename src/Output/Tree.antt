-- ===== src/Output/Tree.antt =====
-- internal/cli/output_formatter.go: rows as a tree. `parse_timestamp` gives nanoseconds since the epoch.
pub mod Parents
use prec.Base.{
  ℕ, zero, suc, ◌+◌, ◌-◌, ◌*◌, ◌/◌, ◌%◌, ◌^◌, ◌≤◌, ◌<◌, min, String, ◌≡◌, refl, sym, ap, ap₂, ◌∙◌,
  ◌≡⟨◌⟩◌, ◌∎, ◌≢◌, ◌↔◌, ◌⊎◌, inl, inr, Bool, true, false, not, ◌&&◌, ◌||◌, Option, none, some, List,
  [], ◌∷◌, ◌++◌, map, append-nil, append_assoc, arith, ltb, leb, ◌==◌, if◌then◌else◌, Bool-cases,
  Option-cases, ==_iff, ltb→lt, lt→ltb, leb→le, tests, length, get_elem?, get_or, set, take, drop,
  replicate, length-append, ℤ, pos, negsuc, pos_part, neg_part, ltb_ℤ, leb_ℤ, eqb_ℤ, ◌≤ℤ◌,
  eqb_ℤ_iff, Result, ok, err, ◌>>=◌, bind-eq-ok, map_result, Result-cases, ok_injective,
  bind_ok-eq-err,
}
use prec.Text.{Text, codes, equal, join}
use prec.Text.Path.{has_suffix}
use prec.Event.{CommandEvent}
use prec.Event.Source.Path.{base}

-- `treeRenderNode`
pub record TreeRenderNode : Type 0 where
  pub ev : CommandEvent
  pub depth : ℕ

-- `normalizeArgvForTree`
unfoldable normalize_argv_for_tree : List Text → Text
unfolding base join
normalize_argv_for_tree [] = []
normalize_argv_for_tree (command ∷ argv) = join (base command ∷ argv) (codes " ")

-- `canonicalTreeCommand`
unfoldable canonical_tree_command : List Text → Text
unfolding normalize_argv_for_tree has_suffix equal base
canonical_tree_command (command ∷ verb ∷ dashes ∷ program ∷ argv) =
    if has_suffix (base command) (codes "aqua")
      && equal verb (codes "exec")
      && equal dashes (codes "--")
    then normalize_argv_for_tree (program ∷ argv)
    else normalize_argv_for_tree (command ∷ verb ∷ dashes ∷ program ∷ argv)
canonical_tree_command argv = normalize_argv_for_tree argv

-- `treeLinkWindow`, in nanoseconds.
abbrev tree_link_window : ℕ
tree_link_window = 300000000

-- `delta >= 0 && delta <= treeLinkWindow` for two times, if both are known.
abbrev is_shortly_after : Option ℤ → Option ℤ → Bool
is_shortly_after (some parent) (some cur) =
    leb_ℤ parent cur
    && leb (pos_part cur + neg_part parent) (pos_part parent + neg_part cur + tree_link_window)
is_shortly_after _ _ = false

-- `treePrefix`
unfoldable indent : ℕ → Text
indent zero = codes "`- "
indent (suc n) = codes "  " ++ indent n

unfoldable pub tree_prefix : ℕ → Text
unfolding indent
tree_prefix zero = []
tree_prefix (suc n) = indent n

module _ (parse_timestamp : Text → Option ℤ) where
  -- `shouldLinkAsTreeChild`
  unfoldable pub should_link_as_tree_child : CommandEvent → CommandEvent → Bool
  unfolding canonical_tree_command equal
  should_link_as_tree_child parent cur =
      if not (parent.uid == cur.uid)
      then false
      else if not (equal parent.source cur.source)
      then false
      else if not (eqb_ℤ parent.ppid cur.ppid)
      then false
      else if not (eqb_ℤ parent.parent_tty_nr (pos 0))
          && not (eqb_ℤ cur.parent_tty_nr (pos 0))
          && not (eqb_ℤ parent.parent_tty_nr cur.parent_tty_nr)
      then false
      else if not (equal (canonical_tree_command parent.argv) (canonical_tree_command cur.argv))
      then false
      else is_shortly_after (parse_timestamp parent.timestamp) (parse_timestamp cur.timestamp)

  -- `findSyntheticTreeParent`, at the nodes below an index.
  unfoldable pub find_synthetic_tree_parent : List TreeRenderNode → CommandEvent → ℕ → Option ℕ
  unfolding should_link_as_tree_child
  find_synthetic_tree_parent nodes cur zero = none
  find_synthetic_tree_parent nodes cur (suc i) =
      let rest = find_synthetic_tree_parent nodes cur i in
      elim (get_elem? nodes i) [
        | none ↦ rest
        | some node ↦ if should_link_as_tree_child node.ev cur then some i else rest
      ]

  -- `nodes[idx].depth + 1`
  abbrev pub below : List TreeRenderNode → ℕ → ℕ
  below nodes i = elim (get_elem? nodes i) [ none ↦ 0 | some node ↦ node.depth + 1 ]

  -- The depth of an event in the loop of `renderEventTreeWithFormatter`.
  unfoldable pub depth_of : List TreeRenderNode → (ℤ → Option ℕ) → CommandEvent → ℕ
  unfolding find_synthetic_tree_parent
  depth_of nodes pid_to_index ev = elim (pid_to_index ev.ppid) [
    | some i ↦ below nodes i
    | none ↦ elim (find_synthetic_tree_parent nodes ev (length nodes)) [
      | some i ↦ below nodes i
      | none ↦ 0
    ]
  ]

  module _ (format : CommandEvent → Text) where
    -- The loop of `renderEventTreeWithFormatter`.
    unfoldable pub render_nodes :
        List CommandEvent → List TreeRenderNode → (ℤ → Option ℕ) → List Text → List Text
    unfolding depth_of tree_prefix
    render_nodes [] nodes pid_to_index lines = lines
    render_nodes (ev ∷ events_in) nodes pid_to_index lines =
        let depth = depth_of nodes pid_to_index ev in
        render_nodes events_in (nodes ++ (record { ev = ev; depth = depth } ∷ []))
          (λ pid. if eqb_ℤ pid ev.pid then some (length nodes) else pid_to_index pid)
          (lines ++ ((tree_prefix depth ++ format ev) ∷ []))

    -- `renderEventTreeWithFormatter`
    unfoldable pub render_event_tree_with_formatter : List CommandEvent → List Text
    unfolding render_nodes
    render_event_tree_with_formatter events_in = render_nodes events_in [] (λ pid. none) []
