-- ===== src/Workflow/Solve.antt =====
-- Where the columns of a readable workflow stand: the solver in `createReadableLayout` of
-- renderers/workflow/workflow-compiler.mjs, before the plan is shifted to the right as a whole.
use Prim.Native.Nat.{compare, Ordering}
use codearmory_blacksmith.Base.{
  ℕ, zero, suc, ◌+◌, ◌-◌, ◌*◌, Text, codes, List, [], ◌∷◌, ◌++◌, Bool, true, false, ◌&&◌, ◌||◌,
  includes, if◌then◌else◌, ltb, leb, ◌==◌, filter,
}
use codearmory_blacksmith.Base.Order.{then_by}
use codearmory_blacksmith.Render.Measure.{px, text_units}
use codearmory_blacksmith.Workflow.Contract.{add_text}
use codearmory_blacksmith.Workflow.Columns.{
  Node, Edge, Band, Constraint, column_count, baseline_pitch, distance, first_filled,
  node_constraints, edge_constraints, feedback_constraints,
}

abbrev pub column_start : ℕ
column_start = px 94

-- Where a column stands with no constraint.
abbrev pub baseline : ℕ → ℕ
baseline col = column_start + col * baseline_pitch

abbrev pub is_in_range : Band → Bool
is_in_range b = leb b.from_col b.to_col && ltb b.to_col column_count

-- The span of a band must hold its label; `inset` is the part of the span outside the columns.
abbrev pub span_constraints : Text → ℕ → ℕ → Band → List Constraint
span_constraints kind minimum inset b =
    let contributors = (kind ++ (first_filled b.id b.label ++ codes " label span")) ∷ [] in
    if is_in_range b
    then if b.from_col == b.to_col
      then if ltb b.to_col (column_count - 1)
        then record {
          from = b.to_col;
          to = b.to_col + 1;
          minimum = baseline_pitch + (minimum - inset);
          contributors = contributors;
        }
          ∷ []
        else []
      else record {
        from = b.from_col;
        to = b.to_col;
        minimum = minimum - inset;
        contributors = contributors;
      }
        ∷ []
    else []

abbrev pub phase_label_width : Band → ℕ
phase_label_width b = text_units b.label * 56000 + px 8

abbrev pub group_label_width : Band → ℕ
group_label_width b = text_units b.label * 56000 + px 20

unfoldable pub phase_constraints : List Band → List Constraint
unfolding text_units
phase_constraints [] = []
phase_constraints (b ∷ bs) =
    span_constraints (codes "phase ") (phase_label_width b) (px 92) b ++ phase_constraints bs

unfoldable pub group_constraints : List Band → List Constraint
unfolding text_units
group_constraints [] = []
group_constraints (b ∷ bs) =
    span_constraints (codes "group ") (group_label_width b) (px 100) b ++ group_constraints bs

unfoldable pub pitch_constraints : ℕ → ℕ → List Constraint
pitch_constraints zero col = []
pitch_constraints (suc left) col =
    record { from = col; to = col + 1; minimum = baseline_pitch; contributors = [] }
    ∷ pitch_constraints left (suc col)

-- What the layout is made from; `gaps` are the entries of `rankGapMinimums` in their order.
pub record Plan : Type 0 where
  pub nodes : List Node
  pub edges : List Edge
  pub phases : List Band
  pub groups : List Band
  pub gaps : List Constraint

abbrev pub constraints_of : Plan → List Constraint
constraints_of p =
    pitch_constraints (column_count - 1) 0
    ++ (p.gaps
        ++ (node_constraints p.nodes
            ++ (edge_constraints p.nodes p.edges
                ++ (phase_constraints p.phases ++ group_constraints p.groups))))

abbrev pub is_usable : Constraint → Bool
is_usable c = ltb c.from c.to && ltb c.to column_count

abbrev pub compare_constraints : Constraint → Constraint → Ordering
compare_constraints a b =
    then_by (compare a.to b.to) (then_by (compare a.from b.from) (compare a.minimum b.minimum))

unfoldable pub insert_constraint : Constraint → List Constraint → List Constraint
insert_constraint c [] = c ∷ []
insert_constraint c (x ∷ xs) = elim (compare_constraints x c) [
  | Ordering.lt ↦ x ∷ insert_constraint c xs
  | _ ↦ c ∷ x ∷ xs
]

unfoldable pub sort_constraints : List Constraint → List Constraint
unfolding insert_constraint
sort_constraints [] = []
sort_constraints (c ∷ cs) = insert_constraint c (sort_constraints cs)

-- `colXs` and `colProvenance`, by column.
pub record Columns : Type 0 where
  pub xs : ℕ → ℕ
  pub provenance : ℕ → List Text

abbrev pub set_col : {A : Type 0} → ℕ → A → (ℕ → A) → ℕ → A
set_col key value m col = if col == key then value else m col

abbrev pub add_texts : List Text → List Text → List Text
add_texts [] ts = ts
add_texts (x ∷ xs) ts = add_texts xs (add_text x ts)

-- One round of the inner loop, for the column `to`.
unfoldable pub relax : ℕ → Constraint → Columns → Columns
unfolding includes
relax to c s =
    let candidate = s.xs c.from + c.minimum in
    let because = add_texts c.contributors (s.provenance c.from) in
    if c.to == to
    then if ltb (s.xs to + 1) candidate
      then record { xs = set_col to candidate s.xs; provenance = set_col to because s.provenance }
      else if leb (distance candidate (s.xs to)) 1 && ltb (baseline to + 1) candidate
      then record {
        xs = s.xs;
        provenance = set_col to (add_texts because (s.provenance to)) s.provenance;
      }
      else s
    else s

unfoldable pub relax_all : ℕ → List Constraint → Columns → Columns
unfolding relax
relax_all to [] s = s
relax_all to (c ∷ cs) s = relax_all to cs (relax to c s)

-- The loop over the columns from `to` on, `left` of them.
unfoldable pub sweep : ℕ → ℕ → List Constraint → Columns → Columns
unfolding relax_all
sweep zero to cs s = s
sweep (suc left) to cs s = sweep left (suc to) cs (relax_all to cs s)

abbrev pub at_baseline : Columns
at_baseline = record { xs = baseline; provenance = λ _. [] }

unfoldable pub solve : List Constraint → Columns
unfolding sweep sort_constraints
solve active = sweep (column_count - 1) 1 (sort_constraints (filter is_usable active)) at_baseline

abbrev is_empty : List Constraint → Bool
is_empty [] = true
is_empty (c ∷ cs) = false

-- The loop over the iterations, of which `left` are allowed.
unfoldable pub iterate : ℕ → ℕ → List Constraint → List Constraint → Columns → Columns
unfolding solve
iterate zero iteration active feedback s = s
iterate (suc left) iteration active feedback s =
    let rest = iterate left (suc iteration) (active ++ feedback) feedback (solve active) in
    if ltb 0 iteration || is_empty feedback then solve active else rest

abbrev pub max_layout_iterations : ℕ
max_layout_iterations = 3

unfoldable pub plan_columns : Plan → Columns
unfolding iterate node_constraints edge_constraints phase_constraints group_constraints
    pitch_constraints feedback_constraints
plan_columns p =
    iterate max_layout_iterations 0 (constraints_of p) (feedback_constraints p.nodes p.edges)
      at_baseline
