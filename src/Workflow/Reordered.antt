-- ===== src/Workflow/Reordered.antt =====
-- The order that `canonicalReadableWorkflow` of renderers/workflow/workflow-compiler.mjs gives to a
-- workflow does not depend on the authored one.
use Prim.Native.Nat.{Ordering}
use codearmory_blacksmith.Base.{
  ℕ, ◌≤◌, ◌≢◌, Text, [], ◌∷◌, ◌≡◌, refl, ap, ◌∙◌, List, not, Option, none, some, ◌==◌, if_elim,
  arith, sym,
}
use codearmory_blacksmith.Base.Order.{
  IsTotalOrder, compare_text, compare-IsTotalOrder, lexicographic-IsTotalOrder,
  by_parts-IsTotalOrder,
}
use codearmory_blacksmith.Base.Sorting.{
  sort_ordered, by_key, HasOwnKeys, HasOwnKeys-part, sort_ordered-Perm, IsOrdered,
  sort_ordered-IsOrdered,
}
use mathlib.Core.List.{Permᴰ}
use codearmory_blacksmith.Delta.Canonical.{canonical}
use codearmory_blacksmith.Workflow.Canonical.{
  Placed, Readable, node_key, edge_key, phase_key, group_key, compare_phase_keys,
  compare_group_keys, compare_edge_keys, compare_nodes, compare_edges, compare_phases,
  compare_groups, sort_given, lane_order, canonical_readable_workflow,
}

text_order : IsTotalOrder compare_text
text_order = lexicographic-IsTotalOrder compare-IsTotalOrder

phase_order : IsTotalOrder compare_phase_keys
phase_order =
    by_parts-IsTotalOrder compare-IsTotalOrder
      (by_parts-IsTotalOrder compare-IsTotalOrder text_order)

group_order : IsTotalOrder compare_group_keys
group_order = by_parts-IsTotalOrder compare-IsTotalOrder phase_order

edge_order : IsTotalOrder compare_edge_keys
edge_order = by_parts-IsTotalOrder text_order (
    by_parts-IsTotalOrder text_order (
      by_parts-IsTotalOrder text_order
        (by_parts-IsTotalOrder text_order (by_parts-IsTotalOrder text_order text_order))))

-- The same items in another order, or none on both sides.
abbrev pub IsReordered : Option (List Placed) → Option (List Placed) → Type 0
IsReordered none none = Unit
IsReordered (some xs) (some ys) = Permᴰ xs ys
IsReordered _ _ = ⊥

abbrev pub HaveOwnKeys : {K : Type 0} → (Placed → K) → Option (List Placed) → Type 0
HaveOwnKeys key none = Unit
HaveOwnKeys key (some xs) = HasOwnKeys key xs

-- No two different nodes, phases or groups have one id, and no two different edges one stable key.
pub record IsSeparated (w : Readable) : Type 0 where
  pub nodes : HasOwnKeys (λ (n : Placed). n.id) w.nodes
  pub edges : HasOwnKeys canonical w.edges
  pub phases : HaveOwnKeys (λ (p : Placed). p.id) w.phases
  pub groups : HaveOwnKeys (λ (g : Placed). g.id) w.groups

-- The same workflow, authored in another order.
pub record IsSameWorkflow (w v : Readable) : Type 0 where
  pub schema_version : w.schema_version ≡ v.schema_version
  pub lanes : w.lanes ≡ v.lanes
  pub nodes : Permᴰ w.nodes v.nodes
  pub edges : Permᴰ w.edges v.edges
  pub phases : IsReordered w.phases v.phases
  pub groups : IsReordered w.groups v.groups
  pub rest : w.rest ≡ v.rest

HaveOwnKeys-part :
    {K L : Type 0} (key : Placed → K) (part : K → L) (xs : Option (List Placed))
    → HaveOwnKeys (λ x. part (key x)) xs
    → HaveOwnKeys key xs
HaveOwnKeys-part key part none h = tt
HaveOwnKeys-part key part (some xs) h = HasOwnKeys-part key part xs h

sort_given-IsReordered :
    {K : Type 0} (key : Placed → K) {cmp : K → K → Ordering} (o : IsTotalOrder cmp)
    (xs ys : Option (List Placed))
    → IsReordered xs ys
    → HaveOwnKeys key xs
    → sort_given (by_key key o) xs ≡ sort_given (by_key key o) ys
sort_given-IsReordered key o none none p h = refl
sort_given-IsReordered key o none (some ys) p h = absurd p
sort_given-IsReordered key o (some xs) none p h = absurd p
sort_given-IsReordered key o (some xs) (some ys) p h = ap some (sort_ordered-Perm key o p h)

abbrev arranged : Readable → Readable
arranged w = record w {
  nodes = sort_ordered (compare_nodes w.lanes) w.nodes;
  edges = sort_ordered compare_edges w.edges;
  phases = sort_given compare_phases w.phases;
  groups = sort_given (compare_groups w.lanes) w.groups;
}

arranged_at : (w : Readable) → w.schema_version ≡ 2 → canonical_readable_workflow w ≡ arranged w
unfolding canonical_readable_workflow
arranged_at w two =
    if_elim (λ (x : Readable). x ≡ arranged w) (not (w.schema_version == 2)) w (arranged w)
      (λ other. absurd (ground arith)) (λ e. refl)

-- A node and what stands behind it: in no earlier lane, and in no earlier column of the same one.
abbrev pub IsBefore : List Text → Placed → List Placed → Type 0
IsBefore lanes a [] = Unit
IsBefore lanes a (b ∷ rest) =
    (lane_order lanes a ≤ lane_order lanes b)
    × (lane_order lanes a ≡ lane_order lanes b → a.from_col ≤ b.from_col)

abbrev pub IsArranged : List Text → List Placed → Type 0
IsArranged lanes [] = Unit
IsArranged lanes (a ∷ rest) = IsBefore lanes a rest × IsArranged lanes rest

key-IsBefore :
    (m n : ℕ) (c d : ℕ) (s t : Text)
    → compare_phase_keys (m, (c, s)) (n, (d, t)) ≢ Ordering.gt
    → (m ≤ n) × (m ≡ n → c ≤ d)
key-IsBefore m n c d s t h = (ground arith, λ e. ground arith)

ordered-IsArranged :
    (lanes : List Text) (ns : List Placed)
    → IsOrdered (compare_nodes lanes) ns
    → IsArranged lanes ns
ordered-IsArranged lanes [] h = tt
ordered-IsArranged lanes (a ∷ []) h = (tt, tt)
ordered-IsArranged lanes (a ∷ b ∷ rest) h = (
  key-IsBefore (lane_order lanes a) (lane_order lanes b) a.from_col b.from_col a.id b.id h.0,
  ordered-IsArranged lanes (b ∷ rest) h.1,
)

nodes-IsArranged :
    (w : Readable) → IsArranged w.lanes (sort_ordered (compare_nodes w.lanes) w.nodes)
nodes-IsArranged w = ordered-IsArranged w.lanes _ (
    sort_ordered-IsOrdered (compare_nodes w.lanes)
      (λ a b. phase_order.swap (node_key w.lanes a) (node_key w.lanes b)) w.nodes)

-- The canonical form does not depend on the order in which a workflow of schema version 2 is
-- authored, if no two different nodes, phases or groups have one id, and no two different edges one
-- stable key of their value. In it no node stands directly before one of an earlier lane, or of an
-- earlier column of its own lane.
pub canonical_readable_workflow-IsSameWorkflow :
    (w v : Readable)
    → w.schema_version ≡ 2
    → IsSeparated w
    → IsSameWorkflow w v
    → (canonical_readable_workflow w ≡ canonical_readable_workflow v)
      × IsArranged w.lanes (canonical_readable_workflow w).nodes
unfolding canonical_readable_workflow
canonical_readable_workflow-IsSameWorkflow w v two own same =
    let nodes =
      sort_ordered-Perm (node_key w.lanes) phase_order same.nodes
        (HasOwnKeys-part (node_key w.lanes) (λ k. k.1.1) w.nodes own.nodes) in
    let edges =
      sort_ordered-Perm edge_key edge_order same.edges
        (HasOwnKeys-part edge_key (λ k. k.1.1.1.1.1) w.edges own.edges) in
    let phases =
      sort_given-IsReordered phase_key phase_order w.phases v.phases same.phases
        (HaveOwnKeys-part phase_key (λ k. k.1.1) w.phases own.phases) in
    let groups =
      sort_given-IsReordered (group_key w.lanes) group_order w.groups v.groups same.groups
        (HaveOwnKeys-part (group_key w.lanes) (λ k. k.1.1.1) w.groups own.groups) in
    let alike : canonical_readable_workflow w ≡ canonical_readable_workflow v =
      arranged_at w two
      ∙ ((λ i. record {
        schema_version = same.schema_version i;
        lanes = same.lanes i;
        nodes = (nodes ∙ ap (λ ls. sort_ordered (compare_nodes ls) v.nodes) same.lanes) i;
        edges = edges i;
        phases = phases i;
        groups = (groups ∙ ap (λ ls. sort_given (compare_groups ls) v.groups) same.lanes) i;
        rest = same.rest i;
      })
          ∙ sym (arranged_at v (sym same.schema_version ∙ two))) in
    (alike, rw (arranged_at w two) (nodes-IsArranged w))
