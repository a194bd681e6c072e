-- ===== src/Workflow/Columns.antt =====
-- What the columns of a readable workflow must leave room for: the constraints that
-- `createReadableLayout` of renderers/workflow/workflow-compiler.mjs collects. Lengths count units of
-- 0.0001 px, as in Geometry, and the half of a length drops half a unit. Vertical offsets count from a
-- common origin above all of them. A text that is absent is empty.
use Prim.Native.Nat.{max, ◌/◌}
use codearmory_blacksmith.Base.{
  ℕ, ◌+◌, ◌-◌, ◌*◌, Text, codes, List, [], ◌∷◌, ◌++◌, Bool, true, false, not, ◌&&◌, ◌||◌, Option,
  none, some, text_eq, if◌then◌else◌, ltb, ◌==◌,
}
use codearmory_blacksmith.Json.Size.{natural_number}
use codearmory_blacksmith.Render.Measure.{px, text_units}

-- A number by its value and its text, `String(n)`.
pub record Length : Type 0 where
  pub value : ℕ
  pub text : Text

pub record Node : Type 0 where
  pub id : Text
  pub lane : Text
  pub col : ℕ
  pub width : Option Length
  pub height : Option Length
  pub has_tag : Bool
  pub y_offset : ℕ

-- The Boolean fields say whether the property is given.
pub record Edge : Type 0 where
  pub id : Text
  pub from : Text
  pub to : Text
  pub label : Text
  pub route : Text
  pub label_at : Bool
  pub via : Bool
  pub channel_x : Bool
  pub channel_y : Bool
  pub from_side : Bool
  pub to_side : Bool

-- A phase or a group, by its columns.
pub record Band : Type 0 where
  pub id : Text
  pub label : Text
  pub from_col : ℕ
  pub to_col : ℕ

pub record Constraint : Type 0 where
  pub from : ℕ
  pub to : ℕ
  pub minimum : ℕ
  pub contributors : List Text

abbrev pub column_count : ℕ
column_count = 6

abbrev pub baseline_pitch : ℕ
baseline_pitch = px 120

abbrev pub node_width : Option Length → Length
node_width none = record { value = px 92; text = codes "92" }
node_width (some w) = w

abbrev pub authored_node_width : Node → ℕ
authored_node_width n = (node_width n.width).value

abbrev pub half_width : Node → ℕ
half_width n = authored_node_width n / 2

abbrev pub node_width_contributor : Node → Text
node_width_contributor n =
    codes "node " ++ (n.id ++ (codes " width " ++ ((node_width n.width).text ++ codes "px")))

abbrev pub height_or : Option Length → Bool → ℕ
height_or none tagged = if tagged then px 68 else px 52
height_or (some h) tagged = h.value

abbrev pub authored_node_height : Node → ℕ
authored_node_height n = height_or n.height n.has_tag

unfoldable pub workflow_label_width : Text → ℕ
unfolding text_units
workflow_label_width label = max (px 30) (text_units label * 48000 + px 10)

abbrev pub distance : ℕ → ℕ → ℕ
distance a b = (a - b) + (b - a)

abbrev pub vertical_intervals_overlap : Node → Node → ℕ → Bool
vertical_intervals_overlap a b clearance =
    ltb (distance a.y_offset b.y_offset)
      (authored_node_height a / 2 + authored_node_height b / 2 + clearance)

abbrev rank : ℕ → ℕ → Text → Text
rank from to what =
    codes "rank "
    ++ ((natural_number from).text ++ (codes "→" ++ ((natural_number to).text ++ what)))

-- `${id || label}`
abbrev pub first_filled : Text → Text → Text
first_filled [] label = label
first_filled (c ∷ cs) label = c ∷ cs

abbrev pub is_filled : Text → Bool
is_filled [] = false
is_filled (c ∷ cs) = true

-- Two nodes in the order of their columns.
abbrev pub earlier : Node → Node → Node
earlier l r = if ltb l.col r.col then l else r

abbrev pub later : Node → Node → Node
later l r = if ltb l.col r.col then r else l

abbrev pub meet : Node → Node → Bool
meet l r = text_eq l.lane r.lane && not (l.col == r.col) && vertical_intervals_overlap l r (px 8)

unfoldable pub node_constraint : Node → Node → Constraint
unfolding natural_number
node_constraint l r = record {
  from = (earlier l r).col;
  to = (later l r).col;
  minimum = half_width (earlier l r) + px 8 + half_width (later l r);
  contributors =
      rank (earlier l r).col (later l r).col (codes " node width clearance")
      ∷ node_width_contributor (earlier l r)
      ∷ node_width_contributor (later l r)
      ∷ [];
}

-- The inner loop, over the nodes behind one.
unfoldable pub row_constraints : Node → List Node → List Constraint
unfolding node_constraint
row_constraints l [] = []
row_constraints l (r ∷ rest) =
    let more = row_constraints l rest in if meet l r then node_constraint l r ∷ more else more

unfoldable pub node_constraints : List Node → List Constraint
unfolding row_constraints
node_constraints [] = []
node_constraints (l ∷ rest) = row_constraints l rest ++ node_constraints rest

-- `nodesById.get(id)`: of two nodes with one id the last.
unfoldable pub node_by_id : List Node → Text → Option Node
unfolding text_eq
node_by_id [] id = none
node_by_id (n ∷ rest) id = elim (node_by_id rest id) [
  | some m ↦ some m
  | none ↦ if text_eq n.id id then some n else none
]

abbrev pub route_or_auto : Edge → Text
route_or_auto e = first_filled e.route (codes "auto")

-- The edge is drawn straight from a node to one of the same lane and height.
abbrev pub is_direct : Edge → Node → Node → Bool
is_direct e f t =
    text_eq f.lane t.lane
    && not (f.col == t.col)
    && not (e.via || e.channel_x || e.channel_y)
    && (text_eq (route_or_auto e) (codes "auto") || text_eq (route_or_auto e) (codes "straight"))
    && f.y_offset == t.y_offset

abbrev pub labeled_direct_clearance : Edge → ℕ
labeled_direct_clearance e =
    if is_filled e.label && not e.label_at
    then max (px 28) (workflow_label_width e.label + px 8)
    else px 28

abbrev pub channel_detour_budget : ℕ
channel_detour_budget = 4 * px 28

abbrev pub prefer_label_channel : Edge → Bool
prefer_label_channel e =
    is_filled e.label
    && not e.label_at
    && text_eq (route_or_auto e) (codes "auto")
    && not e.from_side
    && not e.to_side
    && not e.channel_x
    && not e.channel_y
    && ltb channel_detour_budget (labeled_direct_clearance e - px 28)

abbrev pub workflow_edge_name : Edge → Text
workflow_edge_name e = first_filled e.id (e.from ++ (codes "->" ++ e.to))

unfoldable pub edge_constraint : Node → Node → Constraint
unfolding natural_number
edge_constraint f t = record {
  from = (earlier f t).col;
  to = (later f t).col;
  minimum = half_width (earlier f t) + px 28 + half_width (later f t);
  contributors =
      rank (earlier f t).col (later f t).col (codes " direct clearance")
      ∷ rank (earlier f t).col (later f t).col (codes " node width clearance")
      ∷ node_width_contributor (earlier f t)
      ∷ node_width_contributor (later f t)
      ∷ [];
}

unfoldable pub label_constraint : Edge → Node → Node → Constraint
unfolding natural_number
label_constraint e f t = record {
  from = (earlier f t).col;
  to = (later f t).col;
  minimum = half_width (earlier f t) + labeled_direct_clearance e + half_width (later f t);
  contributors =
      rank (earlier f t).col (later f t).col (codes " direct clearance")
      ∷ (codes "edge " ++ (workflow_edge_name e ++ codes " label mask"))
      ∷ node_width_contributor (earlier f t)
      ∷ node_width_contributor (later f t)
      ∷ [];
}

-- What one edge adds to `constraints` and to `feedbackConstraints`, between nodes that are found.
abbrev pub added : Edge → Option Node → Option Node → List Constraint × List Constraint
added e none t = ([], [])
added e (some f) none = ([], [])
added e (some f) (some t) =
    if is_direct e f t
    then (
      edge_constraint f t ∷ [],
      if not (prefer_label_channel e) && ltb (px 28) (labeled_direct_clearance e)
          then label_constraint e f t ∷ []
          else [],
    )
    else ([], [])

unfoldable pub edge_constraints : List Node → List Edge → List Constraint
unfolding node_by_id
edge_constraints nodes [] = []
edge_constraints nodes (e ∷ es) =
    (added e (node_by_id nodes e.from) (node_by_id nodes e.to)).0 ++ edge_constraints nodes es

unfoldable pub feedback_constraints : List Node → List Edge → List Constraint
unfolding node_by_id
feedback_constraints nodes [] = []
feedback_constraints nodes (e ∷ es) =
    (added e (node_by_id nodes e.from) (node_by_id nodes e.to)).1 ++ feedback_constraints nodes es
