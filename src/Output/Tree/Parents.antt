-- ===== src/Output/Tree/Parents.antt =====
-- internal/cli/output_formatter.go: the parents of the rows of a tree, by searching the rows before.
use prec.Base.{
  ℕ, zero, suc, ◌+◌, ◌≤◌, ◌<◌, ◌≡◌, refl, sym, ◌∙◌, ◌⊎◌, inl, inr, Bool, Option, none, some, List,
  [], ◌∷◌, ◌++◌, append-nil, append_assoc, arith, if◌then◌else◌, Bool-cases, Option-cases, length,
  get_elem?, length-append, ℤ, eqb_ℤ,
}
use prec.Base.{get_elem?-append_some, get_elem?-append_last}
use prec.Text.{Text}
use prec.Event.{CommandEvent}
use prec.Output.Tree.{
  TreeRenderNode, tree_prefix, should_link_as_tree_child, find_synthetic_tree_parent, below,
  depth_of, render_nodes, render_event_tree_with_formatter,
}

-- The first element that meets a test.
abbrev first_with {ℓ} : {A : Type ℓ} → (A → Bool) → List A → Option A
first_with test [] = none
first_with test (x ∷ xs) = if test x then some x else first_with test xs

-- The nodes in their order, from the newest first.
abbrev oldest_first : List TreeRenderNode → List TreeRenderNode
oldest_first [] = []
oldest_first (node ∷ history) = oldest_first history ++ (node ∷ [])

length-oldest_first :
    (history : List TreeRenderNode) → length (oldest_first history) ≡ length history
length-oldest_first [] = refl
length-oldest_first (node ∷ history) =
    length-append (oldest_first history) (node ∷ []) ∙ omega (arith, length-oldest_first history)

get_elem?-older :
    (nodes : List TreeRenderNode) (node : TreeRenderNode) (i : ℕ)
    → i < length nodes
    → get_elem? (nodes ++ (node ∷ [])) i ≡ get_elem? nodes i
get_elem?-older [] node i h = elim h [ ]
get_elem?-older (n ∷ nodes) node zero h = refl
get_elem?-older (n ∷ nodes) node (suc i) h = get_elem?-older nodes node i (omega arith)

-- The index and the node are both missing, or the one is that of the other.
abbrev pub Agrees : List TreeRenderNode → Option ℕ → Option TreeRenderNode → Type 0
Agrees nodes found first =
    ((found ≡ none) × (first ≡ none))
    ⊎ ((i : ℕ) × (node : TreeRenderNode) × (found ≡ some i)
        × (get_elem? nodes i ≡ some node)
        × (first ≡ some node))

Agrees-append :
    (nodes : List TreeRenderNode) (node : TreeRenderNode) (found : Option ℕ)
    (first : Option TreeRenderNode)
    → Agrees nodes found first
    → Agrees (nodes ++ (node ∷ [])) found first
Agrees-append nodes node found first (inl h) = inl h
Agrees-append nodes node found first (inr (i, n, m, g, f)) =
    inr (i, n, m, get_elem?-append_some nodes (node ∷ []) i n g, f)

-- The map of process ids leads to the last node of each process.
abbrev Leads : (ℤ → Option ℕ) → List TreeRenderNode → Type 0
Leads pid_to_index history =
    (pid : ℤ)
    → Agrees (oldest_first history) (pid_to_index pid)
        (first_with (λ (n : TreeRenderNode). eqb_ℤ pid n.ev.pid) history)

Leads-put :
    (pid_to_index : ℤ → Option ℕ) (history : List TreeRenderNode) (node : TreeRenderNode)
    → Leads pid_to_index history
    → Leads
        (λ pid.
          if eqb_ℤ pid node.ev.pid then some (length (oldest_first history)) else pid_to_index pid)
        (node ∷ history)
Leads-put pid_to_index history node h pid = elim (Bool-cases (eqb_ℤ pid node.ev.pid)) [
  | inl e ↦ rw e (
      inr (
        length (oldest_first history),
        node,
        refl,
        get_elem?-append_last (oldest_first history) node,
        refl,
      ))
  | inr e ↦ rw e (Agrees-append (oldest_first history) node _ _ (h pid))
]

module _ (parse_timestamp : Text → Option ℤ) where
  find-older :
      (nodes : List TreeRenderNode) (node : TreeRenderNode) (cur : CommandEvent) (k : ℕ)
      → k ≤ length nodes
      → find_synthetic_tree_parent parse_timestamp (nodes ++ (node ∷ [])) cur k
        ≡ find_synthetic_tree_parent parse_timestamp nodes cur k
  unfolding find_synthetic_tree_parent
  find-older nodes node cur zero h = refl
  find-older nodes node cur (suc k) h =
      let ih = find-older nodes node cur k (omega arith) in
      let older = get_elem?-older nodes node k (omega arith) in
      elim (Option-cases (get_elem? nodes k)) [
        | inl e ↦ rw (find_synthetic_tree_parent, older, e) ih
        | inr (n, e) ↦ elim (Bool-cases (should_link_as_tree_child parse_timestamp n.ev cur)) [
          | inl l ↦ rw (find_synthetic_tree_parent, older, e, l) refl
          | inr l ↦ rw (find_synthetic_tree_parent, older, e, l) ih
        ]
      ]

  abbrev linked : CommandEvent → TreeRenderNode → Bool
  linked cur n = should_link_as_tree_child parse_timestamp n.ev cur

  -- The search finds the last node that is linked.
  find-Agrees :
      (history : List TreeRenderNode) (cur : CommandEvent)
      → Agrees
          (oldest_first history)
          (find_synthetic_tree_parent parse_timestamp (oldest_first history) cur (length history))
          (first_with (linked cur) history)
  unfolding find_synthetic_tree_parent
  find-Agrees [] cur = inl (refl, refl)
  find-Agrees (n ∷ history) cur =
      let nodes = oldest_first history in
      let same : length nodes ≡ length history = length-oldest_first history in
      let last : get_elem? (nodes ++ (n ∷ [])) (length history) ≡ some n =
        rw (sym same) (get_elem?-append_last nodes n) in
      elim (Bool-cases (linked cur n)) [
        | inl e ↦
            rw (find_synthetic_tree_parent, last, e) (inr (length history, n, refl, last, refl))
        | inr e ↦
            rw
              (
                find_synthetic_tree_parent,
                last,
                e,
                find-older nodes n cur (length history) (omega (arith, same)),
              )
              (Agrees-append nodes n _ _ (find-Agrees history cur))
      ]

  abbrev or_first : Option TreeRenderNode → Option TreeRenderNode → Option TreeRenderNode
  or_first none y = y
  or_first (some node) y = some node

  abbrev suc_depth : Option TreeRenderNode → ℕ
  suc_depth none = 0
  suc_depth (some node) = node.depth + 1

  -- The parent of an event: the last node before it of the process that is its parent, or else the last
  -- one that it is linked to.
  abbrev parent_in : List TreeRenderNode → CommandEvent → Option TreeRenderNode
  parent_in history ev =
      or_first (first_with (λ (n : TreeRenderNode). eqb_ℤ ev.ppid n.ev.pid) history)
        (first_with (linked ev) history)

  depth_of-parent_in :
      (pid_to_index : ℤ → Option ℕ) (history : List TreeRenderNode) (ev : CommandEvent)
      → Leads pid_to_index history
      → depth_of parse_timestamp (oldest_first history) pid_to_index ev
        ≡ suc_depth (parent_in history ev)
  unfolding depth_of
  depth_of-parent_in pid_to_index history ev h =
      let same : length (oldest_first history) ≡ length history = length-oldest_first history in
      elim (h ev.ppid) [
        | inr (i, n, m, g, f) ↦ rw (depth_of, m, below, g, f) refl
        | inl (m, f) ↦
            rw (depth_of, m, f, same)
              (elim (find-Agrees history ev) [
                | inr (i, n, m', g, f') ↦ rw (m', below, g, f') refl
                | inl (m', f') ↦ rw (m', f') refl
              ])
      ]

  module _ (format : CommandEvent → Text) where
    -- The lines of a tree, each one level below that of its parent.
    abbrev pub tree_lines : List CommandEvent → List TreeRenderNode → List Text
    tree_lines [] history = []
    tree_lines (ev ∷ events_in) history =
        let depth = suc_depth (parent_in history ev) in
        (tree_prefix depth ++ format ev)
        ∷ tree_lines events_in (record { ev = ev; depth = depth } ∷ history)

    render_nodes-tree_lines :
        (events_in : List CommandEvent) (history : List TreeRenderNode)
        (pid_to_index : ℤ → Option ℕ) (lines : List Text)
        → Leads pid_to_index history
        → render_nodes parse_timestamp format events_in (oldest_first history) pid_to_index lines
          ≡ lines ++ tree_lines events_in history
    unfolding render_nodes
    render_nodes-tree_lines [] history pid_to_index lines h = sym (append-nil lines)
    render_nodes-tree_lines (ev ∷ events_in) history pid_to_index lines h =
        let depth = suc_depth (parent_in history ev) in
        let node : TreeRenderNode = record { ev = ev; depth = depth } in
        let line = tree_prefix depth ++ format ev in
        rw (depth_of-parent_in pid_to_index history ev h) (
          render_nodes-tree_lines events_in (node ∷ history)
            (λ pid.
              if eqb_ℤ pid ev.pid then some (length (oldest_first history)) else pid_to_index pid)
            (lines ++ (line ∷ [])) (Leads-put pid_to_index history node h)
          ∙ append_assoc lines (line ∷ []) (tree_lines events_in (node ∷ history)))

    -- The tree has one line for each row, in the order of the rows: a row stands one level below its
    -- parent, which is the last row before it of the process that is its parent, or else the last one
    -- before it that `shouldLinkAsTreeChild` links it to, and at the margin if there is none.
    pub render_event_tree_with_formatter-tree_lines :
        (events_in : List CommandEvent)
        → render_event_tree_with_formatter parse_timestamp format events_in
          ≡ tree_lines events_in []
    unfolding render_event_tree_with_formatter
    render_event_tree_with_formatter-tree_lines events_in =
        render_nodes-tree_lines events_in [] (λ pid. none) [] (λ pid. inl (refl, refl))
