-- ===== src/Workflow/Roomy.antt =====
-- What the columns of a readable workflow leave room for.
use Prim.Native.Nat.{max}
use codearmory_blacksmith.Base.{
  ℕ, ◌+◌, ◌≤◌, ◌<◌, ◌≡◌, ◌≢◌, Text, List, [], ◌∷◌, ◌++◌, Bool, true, false, not, ◌&&◌, Option, none,
  some, text_eq_iff, text_eq, refl, if◌then◌else◌, ltb, Each, arith, codes, ◌-◌, Bool-cases, inl,
  inr,
}
use codearmory_blacksmith.Base.Pairs.{Pairwise, Each-append_iff}
use codearmory_blacksmith.Render.Measure.{px}
use codearmory_blacksmith.Workflow.Columns.{
  Node, Edge, Band, Constraint, column_count, half_width, vertical_intervals_overlap, first_filled,
  earlier, later, meet, node_constraint, row_constraints, node_constraints, node_by_id, is_direct,
  labeled_direct_clearance, prefer_label_channel, route_or_auto, workflow_label_width, is_filled,
  edge_constraint, label_constraint, added, edge_constraints, feedback_constraints,
}
use codearmory_blacksmith.Workflow.Solve.{
  Plan, constraints_of, is_usable, plan_columns, span_constraints, phase_label_width,
  group_label_width, phase_constraints, group_constraints, pitch_constraints,
}
use codearmory_blacksmith.Workflow.Relaxed.{IsMet}
use codearmory_blacksmith.Workflow.Solved.{demands, plan_columns_least}

module _ (xs : ℕ → ℕ) where
  -- From the right edge of the node in the earlier column to the left edge of the other there is
  -- the gap, up to one unit.
  abbrev pub HasGap : ℕ → Node → Node → Type 0
  HasGap gap l r =
      xs (earlier l r).col + half_width (earlier l r) + gap + half_width (later l r)
      ≤ xs (later l r).col + 1

  -- Nodes of one lane, in different columns and less than 8 px apart in height.
  abbrev pub IsApart : Node → Node → Type 0
  IsApart l r =
      l.lane ≡ r.lane
      → l.col ≢ r.col
      → vertical_intervals_overlap l r (px 8) ≡ true
      → l.col < column_count
      → r.col < column_count
      → HasGap (px 8) l r

  -- A label that is wide enough to go to a channel, 132 px, on a route that may.
  abbrev pub may_leave : Edge → Bool
  may_leave e =
      text_eq (route_or_auto e) (codes "auto")
      && not e.from_side
      && not e.to_side
      && ltb (px 132) (workflow_label_width e.label)

  -- The ends of a direct edge are 28 px apart, and far enough for its label and 8 px more, unless that
  -- has a place of its own or may go to a channel.
  abbrev Holds : Edge → Option Node → Option Node → Type 0
  Holds e none t = Unit
  Holds e (some f) none = Unit
  Holds e (some f) (some t) =
      is_direct e f t ≡ true
      → f.col < column_count
      → t.col < column_count
      → HasGap (px 28) f t
        × (e.label ≢ []
            → e.label_at ≡ false
            → may_leave e ≡ false
            → HasGap (workflow_label_width e.label + px 8) f t)

  abbrev pub IsReached : List Node → Edge → Type 0
  IsReached nodes e = Holds e (node_by_id nodes e.from) (node_by_id nodes e.to)

  -- A band over several columns is as wide as its label, where `inset` is its part outside them.
  abbrev pub IsSpanned : (Band → ℕ) → ℕ → Band → Type 0
  IsSpanned width inset b =
      b.from_col < b.to_col
      → b.to_col < column_count
      → width b + xs b.from_col ≤ xs b.to_col + inset + 1

  pub record IsRoomy (p : Plan) : Type 0 where
    pub nodes : Pairwise IsApart p.nodes
    pub edges : Each (IsReached p.nodes) p.edges
    pub phases : Each (IsSpanned phase_label_width (px 92)) p.phases
    pub groups : Each (IsSpanned group_label_width (px 100)) p.groups

  abbrev Kept : Constraint → Type 0
  Kept c = is_usable c ≡ true → IsMet xs c

  node-IsApart : (l r : Node) → (meet l r ≡ true → Kept (node_constraint l r)) → IsApart l r
  unfolding node_constraint
  node-IsApart l r kept same other near hl hr =
      let met = kept (ground (arith, text_eq_iff l.lane r.lane)) (ground arith) in omega arith

  row-IsApart : (l : Node) (ns : List Node) → Each Kept (row_constraints l ns) → Each (IsApart l) ns
  unfolding row_constraints
  row-IsApart l [] h = tt
  row-IsApart l (r ∷ rest) h =
      let parts = Kept-if (meet l r) (node_constraint l r) (row_constraints l rest) h in
      (node-IsApart l r parts.0, row-IsApart l rest parts.1)
    where
      Kept-if :
          (b : Bool) (c : Constraint) (cs : List Constraint)
          → Each Kept (if b then c ∷ cs else cs)
          → (b ≡ true → Kept c) × Each Kept cs
      Kept-if true c cs h = (λ _. h.0, h.1)
      Kept-if false c cs h = (λ e. cc, h)

  nodes-IsApart : (ns : List Node) → Each Kept (node_constraints ns) → Pairwise IsApart ns
  unfolding node_constraints
  nodes-IsApart [] h = tt
  nodes-IsApart (l ∷ rest) h =
      let parts = (Each-append_iff Kept (row_constraints l rest) (node_constraints rest)).0 h in
      (row-IsApart l rest parts.0, nodes-IsApart rest parts.1)

  direct_columns : (e : Edge) (f t : Node) → is_direct e f t ≡ true → f.col ≢ t.col
  direct_columns e f t h = ground arith

  edge_gap :
      (f t : Node)
      → f.col ≢ t.col
      → f.col < column_count
      → t.col < column_count
      → Kept (edge_constraint f t)
      → HasGap (px 28) f t
  unfolding edge_constraint
  edge_gap f t other hf ht kept = let met = kept (ground arith) in omega arith

  label_gap :
      (e : Edge) (f t : Node)
      → f.col ≢ t.col
      → f.col < column_count
      → t.col < column_count
      → HasGap (px 28) f t
      → (ltb (px 28) (labeled_direct_clearance e) ≡ true → Kept (label_constraint e f t))
      → HasGap (labeled_direct_clearance e) f t
  unfolding label_constraint
  label_gap e f t other hf ht near kept =
      elim (Bool-cases (ltb (px 28) (labeled_direct_clearance e))) [
        | inl wide ↦ let met = kept wide (ground arith) in omega arith
        | inr narrow ↦ let le : labeled_direct_clearance e ≤ px 28 = ground arith in omega arith
      ]

  is_filled-true : (t : Text) → t ≢ [] → is_filled t ≡ true
  is_filled-true [] h = absurd (h refl)
  is_filled-true (c ∷ cs) h = refl

  filled_clearance :
      (e : Edge)
      → e.label ≢ []
      → e.label_at ≡ false
      → labeled_direct_clearance e ≡ max (px 28) (workflow_label_width e.label + px 8)
  filled_clearance e labelled here = rw (is_filled-true e.label labelled, here) refl

  filled_gap :
      (e : Edge) (f t : Node)
      → e.label ≢ []
      → e.label_at ≡ false
      → HasGap (labeled_direct_clearance e) f t
      → HasGap (workflow_label_width e.label + px 8) f t
  filled_gap e f t labelled here h =
      let met = rw (filled_clearance e labelled here) at h in omega arith

  stays_direct :
      (e : Edge) (f t : Node)
      → is_direct e f t ≡ true
      → e.label ≢ []
      → e.label_at ≡ false
      → may_leave e ≡ false
      → prefer_label_channel e ≡ false
  stays_direct e f t direct labelled here stays =
      rw (filled_clearance e labelled here) (ground arith)

  abbrev both : Bool → List Constraint × List Constraint → List Constraint × List Constraint
  both b cs = if b then cs else ([], [])

  edge_parts :
      (b q : Bool) (c d : Constraint)
      → b ≡ true
      → Each Kept (both b (c ∷ [], if q then d ∷ [] else [])).0
      → Each Kept (both b (c ∷ [], if q then d ∷ [] else [])).1
      → Kept c × (q ≡ true → Kept d)
  edge_parts true true c d e h k = (h.0, λ _. k.0)
  edge_parts true false c d e h k = (h.0, λ f. cc)
  edge_parts false q c d e h k = cc

  edge_apart :
      (e : Edge) (f t : Option Node)
      → Each Kept (added e f t).0
      → Each Kept (added e f t).1
      → Holds e f t
  edge_apart e none t h k = tt
  edge_apart e (some f) none h k = tt
  edge_apart e (some f) (some t) h k = λ direct hf ht.
      let parts =
        edge_parts (is_direct e f t)
          (not (prefer_label_channel e) && ltb (px 28) (labeled_direct_clearance e))
          (edge_constraint f t) (label_constraint e f t) direct h k in
      let other = direct_columns e f t direct in
      let near = edge_gap f t other hf ht parts.0 in
      (
        near,
        λ labelled here stays. filled_gap e f t labelled here (
            label_gap e f t other hf ht near
              (λ wide. parts.1 (taken (stays_direct e f t direct labelled here stays) wide))),
      )
    where
      taken : {a b : Bool} → a ≡ false → b ≡ true → (not a && b) ≡ true
      taken h k = ground arith

  edges_apart :
      (nodes : List Node) (es : List Edge)
      → Each Kept (edge_constraints nodes es)
      → Each Kept (feedback_constraints nodes es)
      → Each (IsReached nodes) es
  unfolding edge_constraints feedback_constraints
  edges_apart nodes [] h k = tt
  edges_apart nodes (e ∷ es) h k =
      let here = added e (node_by_id nodes e.from) (node_by_id nodes e.to) in
      let now = (Each-append_iff Kept here.0 (edge_constraints nodes es)).0 h in
      let later = (Each-append_iff Kept here.1 (feedback_constraints nodes es)).0 k in
      (edge_apart e _ _ now.0 later.0, edges_apart nodes es now.1 later.1)

  band-IsSpanned :
      (kind : Text) (width : Band → ℕ) (inset : ℕ) (b : Band)
      → Each Kept (span_constraints kind (width b) inset b)
      → IsSpanned width inset b
  band-IsSpanned kind width inset b h = λ forward inside.
      let met = (rw (spanning kind (width b) inset b forward inside) at h).0 (ground arith) in
      omega arith
    where
      spanning :
          (kind : Text) (minimum inset : ℕ) (b : Band)
          → b.from_col < b.to_col
          → b.to_col < column_count
          → span_constraints kind minimum inset b
            ≡ record {
              from = b.from_col;
              to = b.to_col;
              minimum = minimum - inset;
              contributors = (kind ++ (first_filled b.id b.label ++ codes " label span")) ∷ [];
            }
              ∷ []
      spanning kind minimum inset b h k = ground arith

  phases-IsSpanned :
      (bs : List Band)
      → Each Kept (phase_constraints bs)
      → Each (IsSpanned phase_label_width (px 92)) bs
  unfolding phase_constraints
  phases-IsSpanned [] h = tt
  phases-IsSpanned (b ∷ bs) h =
      let parts = (Each-append_iff Kept _ (phase_constraints bs)).0 h in
      (
        band-IsSpanned (codes "phase ") phase_label_width (px 92) b parts.0,
        phases-IsSpanned bs parts.1,
      )

  groups-IsSpanned :
      (bs : List Band)
      → Each Kept (group_constraints bs)
      → Each (IsSpanned group_label_width (px 100)) bs
  unfolding group_constraints
  groups-IsSpanned [] h = tt
  groups-IsSpanned (b ∷ bs) h =
      let parts = (Each-append_iff Kept _ (group_constraints bs)).0 h in
      (
        band-IsSpanned (codes "group ") group_label_width (px 100) b parts.0,
        groups-IsSpanned bs parts.1,
      )

  IsMet-IsRoomy : (p : Plan) → Each Kept (demands p) → IsRoomy p
  IsMet-IsRoomy p h =
      let all = (Each-append_iff Kept (constraints_of p) _).0 h in
      let gaps = (Each-append_iff Kept (pitch_constraints 5 0) _).0 all.0 in
      let nodes = (Each-append_iff Kept p.gaps _).0 gaps.1 in
      let edges = (Each-append_iff Kept (node_constraints p.nodes) _).0 nodes.1 in
      let bands = (Each-append_iff Kept (edge_constraints p.nodes p.edges) _).0 edges.1 in
      let groups = (Each-append_iff Kept (phase_constraints p.phases) _).0 bands.1 in
      record {
        nodes = nodes-IsApart p.nodes edges.0;
        edges = edges_apart p.nodes p.edges bands.0 all.1;
        phases = phases-IsSpanned p.phases groups.0;
        groups = groups-IsSpanned p.groups groups.1;
      }

-- In the columns of a plan, up to one unit of 0.0001 px: nodes of one lane in different columns,
-- less than 8 px apart in height, are 8 px apart; the ends of a direct edge are 28 px apart, and
-- far enough for its label and 8 px more, unless the label has a place of its own or, wider than
-- 132 px on an automatic route without a side, may go to a channel; and the span of a phase or a
-- group over several columns holds its label.
pub plan_columns-IsRoomy : (p : Plan) → IsRoomy (plan_columns p).xs p
plan_columns-IsRoomy p = IsMet-IsRoomy (plan_columns p).xs p (plan_columns_least p).1.0
