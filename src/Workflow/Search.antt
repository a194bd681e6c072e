-- ===== src/Workflow/Search.antt =====
-- The search for a path, `reachable`, and the whole of `semanticContractDiagnostics`, in
-- renderers/workflow/workflow-compiler.mjs.
use codearmory_blacksmith.Base.{
  ℕ, zero, suc, Text, codes, List, [], ◌∷◌, ◌++◌, Bool, true, false, Option, none, some, text_eq,
  includes, if◌then◌else◌, length, for_each,
}
use codearmory_blacksmith.Json.{arr, end, field}
use codearmory_blacksmith.Json.Size.{natural_number}
use codearmory_blacksmith.Render.Diagnostics.{Diagnostic, items_of, new_texts}
use codearmory_blacksmith.Workflow.Contract.{
  Relation, SemanticChecks, Workflow, node_ids_of, adjacency_of, count_edges, contract_diagnostic,
  quoted, relation_subject, item_path, referenced_nodes, reference_diagnostics, root_diagnostics,
  terminal_diagnostics, ends_diagnostics, edge_diagnostics,
}

pub record Search : Type 0 where
  pub visited : List Text
  pub pending : List Text

unfoldable pub offer : Text → Search → Search
unfolding includes
offer next s =
    if includes next s.visited
    then s
    else record { visited = s.visited ++ next ∷ []; pending = s.pending ++ next ∷ [] }

-- The inner loop, over the targets of a node.
unfoldable pub scan : List Text → Search → Search
unfolding offer
scan [] s = s
scan (next ∷ rest) s = scan rest (offer next s)

pub data Outcome : Type 0 where
  found exhausted out_of_fuel : Outcome

module _ (targets : Text → List Text) (to : Text) where
  -- The `while` loop, one node of `pending` in each round.
  unfoldable pub search : ℕ → List Text → List Text → Outcome
  unfolding text_eq scan
  search fuel visited [] = exhausted
  search zero visited (current ∷ pending) = out_of_fuel
  search (suc fuel) visited (current ∷ pending) =
      let next = scan (targets current) (record { visited = visited; pending = pending }) in
      let rest = search fuel next.visited next.pending in if text_eq current to then found else rest

abbrev pub is_found : Outcome → Bool
is_found found = true
is_found _ = false

-- The fuel is a round for each node and one for the start.
unfoldable pub search_from : Workflow → Text → Text → Outcome
unfolding search includes count_edges
search_from w from to =
    search (adjacency_of w).targets to (suc (length (node_ids_of w))) (from ∷ []) (from ∷ [])

abbrev pub reachable : Workflow → Text → Text → Bool
reachable w from to = is_found (search_from w from to)

unfoldable pub path_diagnostics : Workflow → ℕ → Relation → List Diagnostic
unfolding search_from natural_number includes count_edges
path_diagnostics w index r =
    if reachable w r.from r.to
    then []
    else contract_diagnostic (codes "required-path")
        (codes "Workflow semantic contract requires a directed path from "
          ++ (quoted r.from ++ (codes " to " ++ (quoted r.to ++ codes ", but none exists."))))
        (relation_subject r (item_path (codes "requiredPaths") index))
        (field (codes "reachableNodes")
          (arr (items_of (new_texts [] (r.from ∷ (adjacency_of w).targets r.from)))) end)
        ((codes "restore a directed path from "
            ++ (quoted r.from
                ++ (codes " to "
                    ++ (quoted r.to ++ codes " without weakening the semantic requirement"))))
          ∷ [])
      ∷ []

-- The checks after those of the references.
unfoldable pub relation_diagnostics : Workflow → SemanticChecks → List Diagnostic
unfolding includes count_edges root_diagnostics terminal_diagnostics edge_diagnostics
    path_diagnostics
relation_diagnostics w checks =
    ends_diagnostics (root_diagnostics (adjacency_of w)) (node_ids_of w) checks.allowed_roots
    ++ (ends_diagnostics (terminal_diagnostics (adjacency_of w)) (node_ids_of w)
          checks.allowed_terminals
        ++ (for_each (edge_diagnostics w.edges) 0 checks.required_edges
            ++ for_each (path_diagnostics w) 0 checks.required_paths))

-- `if (diagnostics.length) return diagnostics`
abbrev pub or_continue : List Diagnostic → List Diagnostic → List Diagnostic
or_continue [] rest = rest
or_continue (d ∷ ds) rest = d ∷ ds

abbrev pub contract_problems : Workflow → Option SemanticChecks → List Diagnostic
contract_problems w none = []
contract_problems w (some checks) =
    or_continue (for_each (λ _. reference_diagnostics (node_ids_of w)) 0 (referenced_nodes checks))
      (relation_diagnostics w checks)

unfoldable pub semantic_contract_diagnostics : Workflow → List Diagnostic
unfolding includes reference_diagnostics referenced_nodes relation_diagnostics
semantic_contract_diagnostics w = contract_problems w w.semantic_checks
