-- ===== src/Workflow/Accepts.antt =====
-- What the semantic contract of a workflow asks for, said without its diagnostics.
use codearmory_blacksmith.Base.{
  ℕ, suc, ◌≡◌, ◌↔◌, refl, sym, ap, ◌∙◌, Text, codes, List, [], ◌∷◌, map, Bool, true, false, ◌||◌,
  Option, none, some, includes, if◌then◌else◌, Each, for_each, for_each_nil, append_nil_iff, arith,
}
use codearmory_blacksmith.Base.Pairs.{Each-within, Each-includes, Each-append_iff}
use codearmory_blacksmith.Workflow.Keys.{is_plain, key-has_edge}
use codearmory_blacksmith.Render.Diagnostics.{Diagnostic, new_texts}
use codearmory_blacksmith.Workflow.Contract.{
  Relation, SemanticChecks, Workflow, NodeReference, list_or_empty, node_ids_of, adjacency_of,
  referenced_nodes, reference_diagnostics, root_diagnostics, terminal_diagnostics, ends_diagnostics,
  edge_key, edge_diagnostics, id_reference, relation_references,
}
use codearmory_blacksmith.Workflow.Search.{
  path_diagnostics, relation_diagnostics, or_continue, contract_problems, reachable,
  semantic_contract_diagnostics,
}
use codearmory_blacksmith.Workflow.Paths.{
  has_edge, is_node, has_source, has_sink, Leads, is_node-node_ids, incoming-has_source,
  outgoing-has_sink, reachable-Leads, includes-new_texts_nil,
}

abbrev pub IsNode : Workflow → Text → Type 0
IsNode w id = is_node w id ≡ true

abbrev pub IsJoin : Workflow → Relation → Type 0
IsJoin w r = IsNode w r.from × IsNode w r.to

-- Where a list is given, it has each node that the test does not take.
abbrev pub HasEnds : (Text → Bool) → Workflow → Option (List Text) → Type 0
HasEnds test w none = Unit
HasEnds test w (some ids) = (id : Text) → is_node w id ≡ true → (test id || includes id ids) ≡ true

abbrev pub Refers : Workflow → SemanticChecks → Type 0
Refers w c =
    Each (IsNode w) (list_or_empty c.allowed_roots)
    × (Each (IsNode w) (list_or_empty c.allowed_terminals)
        × (Each (IsJoin w) c.required_edges × Each (IsJoin w) c.required_paths))

abbrev pub Relates : Workflow → SemanticChecks → Type 0
Relates w c =
    HasEnds (has_source w) w c.allowed_roots
    × (HasEnds (has_sink w) w c.allowed_terminals
        × (Each (λ r. has_edge w r.from r.to ≡ true) c.required_edges
            × Each (λ r. Leads w r.from r.to) c.required_paths))

abbrev pub Honours : Workflow → Option SemanticChecks → Type 0
Honours w none = Unit
Honours w (some c) = Refers w c × Relates w c

shown : {A : Type 0} (b : Bool) (x : A) → (if b then [] else x ∷ []) ≡ [] → b ≡ true
shown true x h = refl
shown false x h = cc

hidden : {A : Type 0} (b : Bool) (x : A) → b ≡ true → (if b then [] else x ∷ []) ≡ []
hidden true x h = refl
hidden false x h = cc

or_continue_nil : (xs ys : List Diagnostic) → or_continue xs ys ≡ [] → (xs ≡ []) × (ys ≡ [])
or_continue_nil [] ys h = (refl, h)
or_continue_nil (x ∷ xs) ys h = cc

or_continue-nil : (xs ys : List Diagnostic) → xs ≡ [] → ys ≡ [] → or_continue xs ys ≡ []
or_continue-nil [] ys h k = k
or_continue-nil (x ∷ xs) ys h k = cc

module _ (w : Workflow) where
  -- A reference with the path of its place is to a node.
  abbrev Known : NodeReference → Type 0
  Known p = IsNode w p.0

  id_references :
      (collection : Text) (i : ℕ) (ids : List Text)
      → Each Known (for_each (id_reference collection) i ids) ↔ Each (IsNode w) ids
  id_references collection i [] = (λ h. tt, λ h. tt)
  id_references collection i (id ∷ ids) =
      let law = id_references collection (suc i) ids in
      (λ h. (h.0, law.0 h.1), λ h. (h.0, law.1 h.1))

  pair_references :
      (collection : Text) (i : ℕ) (rs : List Relation)
      → Each Known (for_each (relation_references collection) i rs) ↔ Each (IsJoin w) rs
  pair_references collection i [] = (λ h. tt, λ h. tt)
  pair_references collection i (r ∷ rs) =
      let law = pair_references collection (suc i) rs in
      (λ h. ((h.0, h.1.0), law.0 h.1.1), λ h. (h.0.0, (h.0.1, law.1 h.1)))

  reference_diagnostics_nil :
      (p : NodeReference) → (reference_diagnostics (node_ids_of w) p ≡ []) ↔ Known p
  unfolding reference_diagnostics
  reference_diagnostics_nil p = ground (arith, is_node-node_ids w p.0)

  referenced_nodes_lem : (c : SemanticChecks) → Each Known (referenced_nodes c) ↔ Refers w c
  unfolding referenced_nodes
  referenced_nodes_lem c =
      let roots = id_references (codes "allowedRoots") 0 (list_or_empty c.allowed_roots) in
      let terminals =
        id_references (codes "allowedTerminals") 0 (list_or_empty c.allowed_terminals) in
      let edges = pair_references (codes "requiredEdges") 0 c.required_edges in
      let paths = pair_references (codes "requiredPaths") 0 c.required_paths in
      let last =
        Each-append_iff Known
          (for_each (relation_references (codes "requiredEdges")) 0 c.required_edges)
          (for_each (relation_references (codes "requiredPaths")) 0 c.required_paths) in
      let more =
        Each-append_iff Known
          (for_each (id_reference (codes "allowedTerminals")) 0 (list_or_empty c.allowed_terminals))
          _ in
      let whole =
        Each-append_iff Known
          (for_each (id_reference (codes "allowedRoots")) 0 (list_or_empty c.allowed_roots)) _ in
      (
        λ h.
            let a = whole.0 h in
            let b = more.0 a.1 in
            let d = last.0 b.1 in (roots.0 a.0, (terminals.0 b.0, (edges.0 d.0, paths.0 d.1))),
        λ h.
            whole.1
              (roots.1 h.0, more.1 (terminals.1 h.1.0, last.1 (edges.1 h.1.1.0, paths.1 h.1.1.1))),
      )

  root_nil :
      (ids : List Text) (id : Text)
      → is_node w id ≡ true
      → (root_diagnostics (adjacency_of w) ids id ≡ [])
        ↔ ((has_source w id || includes id ids) ≡ true)
  unfolding root_diagnostics
  root_nil ids id h = ground (arith, incoming-has_source w id)

  terminal_nil :
      (ids : List Text) (id : Text)
      → is_node w id ≡ true
      → (terminal_diagnostics (adjacency_of w) ids id ≡ [])
        ↔ ((has_sink w id || includes id ids) ≡ true)
  unfolding terminal_diagnostics
  terminal_nil ids id h = ground (arith, outgoing-has_sink w id)

  ends_iff :
      (test : Text → Bool) (check : List Text → Text → List Diagnostic)
      → ((ids : List Text) (id : Text)
          → is_node w id ≡ true
          → (check ids id ≡ []) ↔ ((test id || includes id ids) ≡ true))
      → (given : Option (List Text))
      → (ends_diagnostics check (node_ids_of w) given ≡ []) ↔ HasEnds test w given
  ends_iff test check law none = (λ h. tt, λ h. refl)
  ends_iff test check law (some ids) =
      let each =
        for_each_nil (λ _. check (new_texts [] ids)) _ (λ _ id. (λ h. h, λ h. h)) 0
          (node_ids_of w) in
      let all = Each-includes (λ id. check (new_texts [] ids) id ≡ []) (node_ids_of w) in
      (
        λ h id k.
            let found =
              (law (new_texts [] ids) id k).0 (all.0 (each.0 h) id (is_node-node_ids w id ∙ k)) in
            ap (λ b. test id || b) (sym (includes-new_texts_nil id ids)) ∙ found,
        λ h. each.1 (
            all.1 (λ id k.
              let known = sym (is_node-node_ids w id) ∙ k in
              (law (new_texts [] ids) id known).1
                (ap (λ b. test id || b) (includes-new_texts_nil id ids) ∙ h id known))),
      )

  edge_diagnostics_nil :
      (i : ℕ) (r : Relation)
      → (edge_diagnostics w.edges i r ≡ []) ↔ (includes (edge_key r) (map edge_key w.edges) ≡ true)
  unfolding edge_diagnostics
  edge_diagnostics_nil i r = ground arith

  path_diagnostics_nil :
      (i : ℕ) (r : Relation) → (path_diagnostics w i r ≡ []) ↔ Leads w r.from r.to
  unfolding path_diagnostics
  path_diagnostics_nil i r =
      let law = reachable-Leads w r.from r.to in
      (
        λ h. law.0 (shown (reachable w r.from r.to) _ h),
        λ p. hidden (reachable w r.from r.to) _ (law.1 p),
      )

  relation_diagnostics_nil :
      (c : SemanticChecks)
      → Each (λ id. is_plain id ≡ true) w.nodes
      → Refers w c
      → (relation_diagnostics w c ≡ []) ↔ Relates w c
  unfolding relation_diagnostics
  relation_diagnostics_nil c plain refs =
      let plainly = (Each-includes (λ id. is_plain id ≡ true) w.nodes).0 plain in
      let keyed =
        for_each_nil (edge_diagnostics w.edges) _ edge_diagnostics_nil 0 c.required_edges in
      let held =
        Each-within {P = λ r. includes (edge_key r) (map edge_key w.edges) ≡ true}
          {Q = λ r. has_edge w r.from r.to ≡ true} {R = IsJoin w} c.required_edges refs.1.1.0
          λ r j.
            let same = key-has_edge r w.edges (plainly r.from j.0) (plainly r.to j.1) in
            (λ h. sym same ∙ h, λ h. same ∙ h) in
      append_nil_iff _ _
        (ends_iff (has_source w) (root_diagnostics (adjacency_of w)) root_nil c.allowed_roots)
        (append_nil_iff _ _
          (ends_iff (has_sink w) (terminal_diagnostics (adjacency_of w)) terminal_nil
            c.allowed_terminals)
          (append_nil_iff _ _ (λ h. held.0 (keyed.0 h), λ h. keyed.1 (held.1 h))
            (for_each_nil (path_diagnostics w) _ path_diagnostics_nil 0 c.required_paths)))

-- A workflow whose node ids hold no code unit 0 passes its semantic contract exactly if every id
-- that the contract names is a node, each node that no edge from a node enters is an allowed root,
-- where roots are given, each node that no edge to a node leaves is an allowed terminal, where
-- terminals are given, each required edge is an edge, and a walk along edges between nodes leads
-- from the one end of each required path to the other.
pub semantic_contract_diagnostics-Honours :
    (w : Workflow)
    → Each (λ id. is_plain id ≡ true) w.nodes
    → (semantic_contract_diagnostics w ≡ []) ↔ Honours w w.semantic_checks
unfolding semantic_contract_diagnostics
semantic_contract_diagnostics-Honours w plain = passes w.semantic_checks
  where
    passes : (c : Option SemanticChecks) → (contract_problems w c ≡ []) ↔ Honours w c
    passes none = (λ h. tt, λ h. refl)
    passes (some c) =
        let known =
          for_each_nil (λ _. reference_diagnostics (node_ids_of w)) _
            (λ _. reference_diagnostics_nil w) 0 (referenced_nodes c) in
        let refs = referenced_nodes_lem w c in
        (
          λ h.
              let parts = or_continue_nil _ _ h in
              let r = refs.0 (known.0 parts.0) in
              (r, (relation_diagnostics_nil w c plain r).0 parts.1),
          λ h.
              or_continue-nil _ _ (known.1 (refs.1 h.0))
                ((relation_diagnostics_nil w c plain h.0).1 h.1),
        )
