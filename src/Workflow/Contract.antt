-- ===== src/Workflow/Contract.antt =====
-- The semantic contract of a workflow: `semanticContractDiagnostics` of
-- renderers/workflow/workflow-compiler.mjs. A workflow has the types that its schema gives it, which
-- is checked before.
use codearmory_blacksmith.Base.{
  ℕ, ◌+◌, Text, codes, List, [], ◌∷◌, ◌++◌, map, not, ◌||◌, Option, none, some, text_eq, includes,
  if◌then◌else◌, ltb, length, for_each,
}
use codearmory_blacksmith.Json.{Fields, num, str, arr, end, field}
use codearmory_blacksmith.Json.Size.{natural_number}
use codearmory_blacksmith.Render.Diagnostics.{Diagnostic, error, items_of, new_texts}

-- An edge, or a relation that a check requires, by the two ids that it names.
pub record Relation : Type 0 where
  pub from : Text
  pub to : Text

-- An absent list of roots or of terminals is `none`; the other absent lists are empty.
pub record SemanticChecks : Type 0 where
  pub allowed_roots : Option (List Text)
  pub allowed_terminals : Option (List Text)
  pub required_edges : List Relation
  pub required_paths : List Relation

-- A node by its id.
pub record Workflow : Type 0 where
  pub nodes : List Text
  pub edges : List Relation
  pub semantic_checks : Option SemanticChecks

-- The three maps, whose keys are the ids of the nodes; the targets of an unknown id are `[]`.
pub record Adjacency : Type 0 where
  pub incoming : Text → ℕ
  pub outgoing : Text → ℕ
  pub targets : Text → List Text

-- `map.set(key, value)`
abbrev pub set_at : {A : Type 0} → Text → A → (Text → A) → Text → A
set_at key value m id = if text_eq id key then value else m id

-- `set.add(text)`
abbrev pub add_text : Text → List Text → List Text
add_text t ts = if includes t ts then ts else ts ++ t ∷ []

-- One round of the loop over the edges.
unfoldable pub count_edge : List Text → Relation → Adjacency → Adjacency
unfolding includes text_eq
count_edge node_ids e a =
    if not (includes e.from node_ids) || not (includes e.to node_ids) then a else record {
      outgoing = set_at e.from (a.outgoing e.from + 1) a.outgoing;
      incoming = set_at e.to (a.incoming e.to + 1) a.incoming;
      targets = set_at e.from (add_text e.to (a.targets e.from)) a.targets;
    }

unfoldable pub count_edges : List Text → List Relation → Adjacency → Adjacency
unfolding count_edge
count_edges node_ids [] a = a
count_edges node_ids (e ∷ es) a = count_edges node_ids es (count_edge node_ids e a)

abbrev pub no_edges : Adjacency
no_edges = record { incoming = λ _. 0; outgoing = λ _. 0; targets = λ _. [] }

abbrev pub node_ids_of : Workflow → List Text
node_ids_of w = new_texts [] w.nodes

abbrev pub adjacency_of : Workflow → Adjacency
adjacency_of w = count_edges (node_ids_of w) w.edges no_edges

abbrev pub contract_diagnostic : Text → Text → Fields → Fields → List Text → Diagnostic
contract_diagnostic code message subject evidence fixes = record {
  code = codes "workflow/" ++ code;
  severity = error;
  message = message;
  subject = field (codes "diagramType") (str (codes "workflow")) subject;
  evidence = evidence;
  supported_fixes = fixes;
  suppresses = none;
}

abbrev pub quoted : Text → Text
quoted t = codes "\"" ++ (t ++ codes "\"")

abbrev pub item_path : Text → ℕ → Text
item_path collection index =
    codes "/semanticChecks/" ++ (collection ++ (codes "/" ++ (natural_number index).text))

abbrev node_subject : Text → Text → Fields
node_subject id path = field (codes "node") (str id) (field (codes "path") (str path) end)

abbrev pub relation_subject : Relation → Text → Fields
relation_subject r path =
    field (codes "from") (str r.from)
      (field (codes "to") (str r.to) (field (codes "path") (str path) end))

-- An id with the path of its place.
abbrev pub NodeReference : Type 0
NodeReference = Text × Text

abbrev pub list_or_empty : {A : Type 0} → Option (List A) → List A
list_or_empty none = []
list_or_empty (some xs) = xs

abbrev pub id_reference : Text → ℕ → Text → List NodeReference
id_reference collection index id = (id, item_path collection index) ∷ []

abbrev pub relation_references : Text → ℕ → Relation → List NodeReference
relation_references collection index r =
    (r.from, item_path collection index ++ codes "/from")
    ∷ (r.to, item_path collection index ++ codes "/to")
    ∷ []

unfoldable pub referenced_nodes : SemanticChecks → List NodeReference
unfolding natural_number
referenced_nodes checks =
    for_each (id_reference (codes "allowedRoots")) 0 (list_or_empty checks.allowed_roots)
    ++ (for_each (id_reference (codes "allowedTerminals")) 0
          (list_or_empty checks.allowed_terminals)
        ++ (for_each (relation_references (codes "requiredEdges")) 0 checks.required_edges
            ++ for_each (relation_references (codes "requiredPaths")) 0 checks.required_paths))

unfoldable pub reference_diagnostics : List Text → NodeReference → List Diagnostic
unfolding includes
reference_diagnostics node_ids (id, path) =
    if includes id node_ids
    then []
    else contract_diagnostic (codes "semantic-node-reference")
        (codes "Workflow semantic contract references unknown node "
          ++ (quoted id ++ (codes " at " ++ (path ++ codes "."))))
        (node_subject id path) (field (codes "knownNodes") (arr (items_of node_ids)) end)
        ((codes "replace " ++ (quoted id ++ codes " with an existing node id"))
          ∷ codes "add the missing node before compiling"
          ∷ [])
      ∷ []

unfoldable pub root_diagnostics : Adjacency → List Text → Text → List Diagnostic
unfolding includes
root_diagnostics a allowed node =
    if ltb 0 (a.incoming node) || includes node allowed
    then []
    else contract_diagnostic (codes "unexpected-root")
        (codes "Workflow node "
          ++ (quoted node
              ++ codes " has no incoming edge and is not declared in semanticChecks.allowedRoots."))
        (node_subject node (codes "/semanticChecks/allowedRoots"))
        (field (codes "incomingEdges") (num (natural_number 0))
          (field (codes "allowedRoots") (arr (items_of allowed)) end))
        ((codes "add the missing incoming edge to " ++ quoted node)
          ∷ (codes "declare "
              ++ (quoted node
                  ++ codes " in semanticChecks.allowedRoots if it is an intentional source"))
          ∷ [])
      ∷ []

unfoldable pub terminal_diagnostics : Adjacency → List Text → Text → List Diagnostic
unfolding includes
terminal_diagnostics a allowed node =
    if ltb 0 (a.outgoing node) || includes node allowed
    then []
    else contract_diagnostic (codes "unexpected-terminal")
        (codes "Workflow node "
          ++ (quoted node
              ++ codes
                  " has no outgoing edge and is not declared in semanticChecks.allowedTerminals."))
        (node_subject node (codes "/semanticChecks/allowedTerminals"))
        (field (codes "outgoingEdges") (num (natural_number 0))
          (field (codes "allowedTerminals") (arr (items_of allowed)) end))
        ((codes "add the missing outgoing edge from " ++ quoted node)
          ∷ (codes "declare "
              ++ (quoted node
                  ++ codes " in semanticChecks.allowedTerminals if it is an intentional sink"))
          ∷ [])
      ∷ []

-- The check of the sources, or of the sinks, that stand only where their list is given.
abbrev pub ends_diagnostics :
    (List Text → Text → List Diagnostic) → List Text → Option (List Text) → List Diagnostic
ends_diagnostics check node_ids none = []
ends_diagnostics check node_ids (some ids) = for_each (λ _. check (new_texts [] ids)) 0 node_ids

-- `${from}\u0000${to}`
abbrev pub edge_key : Relation → Text
edge_key r = r.from ++ (0 ∷ r.to)

unfoldable pub edge_diagnostics : List Relation → ℕ → Relation → List Diagnostic
unfolding includes natural_number
edge_diagnostics edges index r =
    if includes (edge_key r) (map edge_key edges)
    then []
    else contract_diagnostic (codes "required-edge")
        (codes "Workflow semantic contract requires edge "
          ++ (quoted r.from
              ++ (codes " -> " ++ (quoted r.to ++ codes ", but no authored edge matches it."))))
        (relation_subject r (item_path (codes "requiredEdges") index))
        (field (codes "authoredEdgeCount") (num (natural_number (length edges))) end)
        ((codes "add an edge from "
            ++ (quoted r.from
                ++ (codes " to "
                    ++ (quoted r.to ++ codes " without deleting the semantic requirement"))))
          ∷ [])
      ∷ []
