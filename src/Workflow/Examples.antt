-- ===== src/Workflow/Examples.antt =====
-- The properties of the workflow compiler and of the migration at concrete workflows.
use Prim.Native.Nat.{◌/◌}
use codearmory_blacksmith.Base.{
  ℕ, ◌+◌, ◌-◌, ◌*◌, ◌≡◌, ◌↔◌, ◌≤◌, refl, List, arith, Text, codes, [], ◌∷◌, true, false, Option,
  none, some, text_eq, includes, if◌then◌else◌, ltb, Each,
}
use mathlib.Core.List.Permᴰ
use codearmory_blacksmith.Workflow.Canonical.{Placed, Readable, canonical_readable_workflow}
use codearmory_blacksmith.Workflow.Reordered.{
  IsArranged, canonical_readable_workflow-IsSameWorkflow,
}
use codearmory_blacksmith.Json.{
  Value, Number, num, str, arr, obj, nil, cons, end, field, get, lookup,
}
use codearmory_blacksmith.Json.Size.{natural_number, digits_of}
use codearmory_blacksmith.Render.Measure.{px}
use codearmory_blacksmith.Workflow.Contract.{Workflow}
use codearmory_blacksmith.Workflow.Search.{reachable, semantic_contract_diagnostics}
use codearmory_blacksmith.Workflow.Paths.{Leads, reachable-Leads}
use codearmory_blacksmith.Workflow.Accepts.{Honours, semantic_contract_diagnostics-Honours}
use codearmory_blacksmith.Workflow.Columns.{Node, Edge}
use codearmory_blacksmith.Workflow.Solve.{Plan, baseline, is_usable, plan_columns}
use codearmory_blacksmith.Workflow.Relaxed.{IsMet}
use codearmory_blacksmith.Workflow.Solved.{IsSolution, demands, plan_columns_least}
use codearmory_blacksmith.Workflow.Roomy.{IsRoomy, plan_columns-IsRoomy}
use codearmory_blacksmith.Workflow.Pins.{
  Doubles, set_in, set_field, remove_field, without_view_box, intrinsic_workflow, planning_workflow,
  create_horizontal_rank_mapper, map_from, map_explicit_coordinates, map_edges, map_edge,
  create_mapped_workflow_candidate,
}
use codearmory_blacksmith.Workflow.Answer.{
  Program, Migration, has_version, passed, failure, probe_document, read, evidence_view_box,
}
use codearmory_blacksmith.Workflow.Migrate.{
  migrate_workflow_document, migrate_first, place, planned_of, settle, fitted,
}
use codearmory_blacksmith.Workflow.Migrated.{
  Returns, migrate_workflow_document-Returns, migrate_workflow_document_again,
}

abbrev chain : Workflow
chain = record {
  nodes = codes "a" ∷ codes "b" ∷ codes "c" ∷ [];
  edges =
      record { from = codes "a"; to = codes "b" }
      ∷ record { from = codes "b"; to = codes "c" }
      ∷ [];
  semantic_checks = some (record {
    allowed_roots = some (codes "a" ∷ []);
    allowed_terminals = some (codes "c" ∷ []);
    required_edges = record { from = codes "a"; to = codes "b" } ∷ [];
    required_paths = record { from = codes "a"; to = codes "c" } ∷ [];
  });
}

contract_example : (semantic_contract_diagnostics chain ≡ []) ↔ Honours chain chain.semantic_checks
contract_example = semantic_contract_diagnostics-Honours chain (refl, (refl, (refl, tt)))

leads_example :
    (reachable chain (codes "a") (codes "c") ≡ true) ↔ Leads chain (codes "a") (codes "c")
leads_example = reachable-Leads chain (codes "a") (codes "c")

abbrev wide_node : Text → ℕ → Node
wide_node id col = record {
  id = id;
  lane = codes "main";
  col = col;
  width = some (record { value = px 180; text = codes "180" });
  height = none;
  has_tag = false;
  y_offset = px 100;
}

abbrev labeled_edge : Edge
labeled_edge = record {
  id = codes "e";
  from = codes "a";
  to = codes "b";
  label = codes "request";
  route = [];
  label_at = false;
  via = false;
  channel_x = false;
  channel_y = false;
  from_side = false;
  to_side = false;
}

abbrev two_columns : Plan
two_columns = record {
  nodes = wide_node (codes "a") 0 ∷ wide_node (codes "b") 1 ∷ [];
  edges = labeled_edge ∷ [];
  phases = record { id = codes "p"; label = codes "Intake"; from_col = 0; to_col = 1 } ∷ [];
  groups = [];
  gaps = [];
}

columns_example :
    ((col : ℕ) → baseline col ≤ (plan_columns two_columns).xs col)
    × (Each (λ c. is_usable c ≡ true → IsMet (plan_columns two_columns).xs c) (demands two_columns)
        × ((ys : ℕ → ℕ)
            → IsSolution (demands two_columns) ys
            → (col : ℕ) → (plan_columns two_columns).xs col ≤ ys col))
columns_example = plan_columns_least two_columns

spacing_example : IsRoomy (plan_columns two_columns).xs two_columns
spacing_example = plan_columns-IsRoomy two_columns

abbrev value_of : Option ℕ → ℕ
value_of none = 0
value_of (some n) = n

abbrev by_naturals : (ℕ → ℕ → ℕ) → Number → Number → Number
by_naturals f a b = natural_number (f (value_of a.natural) (value_of b.natural))

-- The arithmetic of natural numbers, which the coordinates below stay in.
abbrev naturals : Doubles
naturals = record {
  less = λ a b. ltb (value_of a.natural) (value_of b.natural);
  plus = by_naturals (λ a b. a + b);
  minus = by_naturals (λ a b. a - b);
  times = by_naturals (λ a b. a * b);
  divided = by_naturals (λ a b. a / b);
  fixed = λ a. a;
}

-- A compiler that takes every document, and centers the columns at 88 px and 208 px for schema
-- version 1, at 94 px and 334 px for version 2.
abbrev accepting : Program
accepting = record {
  doubles = naturals;
  compile = λ w q. some (record {
    ok = true;
    diagnostics = [];
    required_view_box = none;
    columns =
        if has_version 2 w
        then natural_number 94 ∷ natural_number 334 ∷ []
        else natural_number 88 ∷ natural_number 208 ∷ [];
  });
  validate = λ w. passed;
}

abbrev document_with : ℕ → ℕ → Value
document_with version x = obj (
    field (codes "schema_version") (num (natural_number version)) (
      field (codes "meta") (obj (field (codes "title") (str (codes "Orders")) end)) (
        field (codes "lanes") (arr (cons (obj (field (codes "id") (str (codes "main")) end)) nil)) (
          field (codes "edges")
            (arr (
              cons
                (obj (
                  field (codes "from") (str (codes "a"))
                    (field (codes "channelX") (num (natural_number x)) end)))
                nil))
            end))))

-- The channel in the first rank center moves with it.
abbrev migrated : Migration
migrated = record (failure (num (natural_number 1))) {
  ok = true;
  document = some (document_with 2 334);
  changed_coordinates =
      record {
        path = codes "/edges/0/channelX";
        from = natural_number 208;
        to = natural_number 334;
      }
      ∷ [];
}

migrated_runs : migrate_workflow_document accepting (document_with 1 208) ≡ some migrated
unfolding migrate_workflow_document migrate_first place planned_of settle fitted get lookup text_eq
    includes natural_number digits_of set_in set_field remove_field without_view_box
    intrinsic_workflow planning_workflow create_horizontal_rank_mapper map_from
    map_explicit_coordinates map_edges map_edge create_mapped_workflow_candidate probe_document read
    evidence_view_box
migrated_runs = refl

migrate_example :
    Returns accepting
      (document_with 1 208)
      (migrate_workflow_document accepting (document_with 1 208))
migrate_example = migrate_workflow_document-Returns accepting (document_with 1 208)

again_example :
    (again : Migration) × (migrate_workflow_document accepting (document_with 2 334) ≡ some again)
    × (again.ok ≡ true)
    × (again.document ≡ some (document_with 2 334))
again_example =
    migrate_workflow_document_again accepting (document_with 1 208) (document_with 2 334) migrated
      migrated_runs refl

abbrev placed_node : Text → ℕ → Placed
placed_node id col = record {
  id = id;
  lane = codes "main";
  from_col = col;
  to_col = col;
  body = obj end;
}

abbrev readable_with : List Placed → Readable
readable_with nodes = record {
  schema_version = 2;
  lanes = codes "main" ∷ [];
  nodes = nodes;
  edges = [];
  phases = none;
  groups = none;
  rest = obj end;
}

canonical_example :
    (canonical_readable_workflow
        (readable_with (placed_node (codes "b") 1 ∷ placed_node (codes "a") 0 ∷ []))
      ≡ canonical_readable_workflow
          (readable_with (placed_node (codes "a") 0 ∷ placed_node (codes "b") 1 ∷ [])))
    × IsArranged
        (codes "main" ∷ [])
        (canonical_readable_workflow
          (readable_with (placed_node (codes "b") 1 ∷ placed_node (codes "a") 0 ∷ []))).nodes
canonical_example =
    canonical_readable_workflow-IsSameWorkflow
      (readable_with (placed_node (codes "b") 1 ∷ placed_node (codes "a") 0 ∷ []))
      (readable_with (placed_node (codes "a") 0 ∷ placed_node (codes "b") 1 ∷ [])) refl
      (record {
        nodes = (((λ e. absurd (ground arith)), tt), (tt, tt));
        edges = tt;
        phases = tt;
        groups = tt;
      })
      (record {
        schema_version = refl;
        lanes = refl;
        nodes = Permᴰ.swap refl refl;
        edges = Permᴰ.nil;
        phases = tt;
        groups = tt;
        rest = refl;
      })
