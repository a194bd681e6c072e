-- ===== src/Workflow/Canonical.antt =====
-- `canonicalReadableWorkflow` of renderers/workflow/workflow-compiler.mjs: a workflow of schema version
-- 2 in an order of its own.
use Prim.Native.Nat.{compare, Ordering}
use codearmory_blacksmith.Base.{
  ℕ, suc, Text, codes, List, [], ◌∷◌, not, Option, none, some, text_eq, if◌then◌else◌, ◌==◌,
}
use codearmory_blacksmith.Base.Order.{compare_text, by_parts}
use codearmory_blacksmith.Base.Sorting.{sort_ordered}
use codearmory_blacksmith.Json.{Value, undefined, null, get, coerce}
use codearmory_blacksmith.Delta.Canonical.{canonical}

-- An item by what the order reads of it, and as a whole; a node has its column twice.
pub record Placed : Type 0 where
  pub id : Text
  pub lane : Text
  pub from_col : ℕ
  pub to_col : ℕ
  pub body : Value

-- `stableText(value)`
abbrev pub stable_text : Value → Text
stable_text undefined = []
stable_text null = []
stable_text v = coerce v

-- Lanes are their ids.
pub record Readable : Type 0 where
  pub schema_version : ℕ
  pub lanes : List Text
  pub nodes : List Placed
  pub edges : List Value
  pub phases : Option (List Placed)
  pub groups : Option (List Placed)
  pub rest : Value

abbrev pub max_safe_integer : ℕ
max_safe_integer = 9007199254740991

-- `laneOrder.get(id)`: of two lanes with one id the last.
unfoldable pub lane_index : ℕ → List Text → Text → Option ℕ
unfolding text_eq
lane_index i [] id = none
lane_index i (l ∷ ls) id = elim (lane_index (suc i) ls id) [
  | some j ↦ some j
  | none ↦ if text_eq l id then some i else none
]

abbrev or_max : Option ℕ → ℕ
or_max none = max_safe_integer
or_max (some i) = i

abbrev pub lane_order : List Text → Placed → ℕ
lane_order lanes x = or_max (lane_index 0 lanes x.lane)

abbrev NodeKey : Type 0
NodeKey = ℕ × (ℕ × Text)

abbrev pub node_key : List Text → Placed → NodeKey
node_key lanes x = (lane_order lanes x, (x.from_col, x.id))

abbrev EdgeKey : Type 0
EdgeKey = Text × (Text × (Text × (Text × (Text × Text))))

abbrev text_at : Text → Value → Text
text_at key e = stable_text (get e key)

-- The canonical text of a value is the `stableValueKey` of it.
abbrev pub edge_key : Value → EdgeKey
edge_key e = (
  text_at (codes "id") e,
  (
    text_at (codes "from") e,
    (text_at (codes "to") e, (text_at (codes "label") e, (text_at (codes "route") e, canonical e))),
  ),
)

abbrev PhaseKey : Type 0
PhaseKey = ℕ × (ℕ × Text)

abbrev pub phase_key : Placed → PhaseKey
phase_key x = (x.from_col, (x.to_col, x.id))

abbrev GroupKey : Type 0
GroupKey = ℕ × PhaseKey

abbrev pub group_key : List Text → Placed → GroupKey
group_key lanes x = (lane_order lanes x, phase_key x)

abbrev pub compare_phase_keys : PhaseKey → PhaseKey → Ordering
compare_phase_keys = by_parts compare (by_parts compare compare_text)

abbrev pub compare_group_keys : GroupKey → GroupKey → Ordering
compare_group_keys = by_parts compare compare_phase_keys

abbrev pub compare_edge_keys : EdgeKey → EdgeKey → Ordering
compare_edge_keys = by_parts compare_text (
    by_parts compare_text
      (by_parts compare_text (by_parts compare_text (by_parts compare_text compare_text))))

abbrev pub compare_nodes : List Text → Placed → Placed → Ordering
compare_nodes lanes a b = compare_phase_keys (node_key lanes a) (node_key lanes b)

abbrev pub compare_edges : Value → Value → Ordering
compare_edges a b = compare_edge_keys (edge_key a) (edge_key b)

abbrev pub compare_phases : Placed → Placed → Ordering
compare_phases a b = compare_phase_keys (phase_key a) (phase_key b)

abbrev pub compare_groups : List Text → Placed → Placed → Ordering
compare_groups lanes a b = compare_group_keys (group_key lanes a) (group_key lanes b)

abbrev pub sort_given : (Placed → Placed → Ordering) → Option (List Placed) → Option (List Placed)
sort_given order none = none
sort_given order (some xs) = some (sort_ordered order xs)

unfoldable pub canonical_readable_workflow : Readable → Readable
unfolding lane_index sort_ordered
canonical_readable_workflow w = if not (w.schema_version == 2) then w else record w {
  nodes = sort_ordered (compare_nodes w.lanes) w.nodes;
  edges = sort_ordered compare_edges w.edges;
  phases = sort_given compare_phases w.phases;
  groups = sort_given (compare_groups w.lanes) w.groups;
}
