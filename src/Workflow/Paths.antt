-- ===== src/Workflow/Paths.antt =====
-- The maps that `semanticContractDiagnostics` of renderers/workflow/workflow-compiler.mjs builds
-- hold the edges of the workflow, and `reachable` its walks.
use codearmory_blacksmith.Base.{
  suc, ◌≡◌, ◌≢◌, ◌↔◌, ◌⊎◌, refl, ap, ◌∙◌, Text, List, [], ◌∷◌, Bool, true, not, ◌&&◌, ◌||◌, text_eq,
  text_eq_iff, includes, ltb, length, any, arith, inl, inr,
}
use codearmory_blacksmith.Update.State.Acknowledge.{includes-append}
use codearmory_blacksmith.Render.Diagnostics.{new_texts}
use codearmory_blacksmith.Workflow.Contract.{
  Relation, Workflow, Adjacency, count_edge, count_edges, no_edges, node_ids_of, adjacency_of,
}
use codearmory_blacksmith.Workflow.Search.{
  Outcome, found, exhausted, out_of_fuel, search_from, reachable, is_found,
}
use codearmory_blacksmith.Workflow.Reach.{
  Walk, here, step, start-found, start-exhausted, start-ends,
}

-- The edge joins two of the nodes.
abbrev is_between : List Text → Relation → Bool
is_between ids e = includes e.from ids && includes e.to ids

abbrev starts_at : List Text → Text → Relation → Bool
starts_at ids id e = is_between ids e && text_eq e.from id

abbrev ends_at : List Text → Text → Relation → Bool
ends_at ids id e = is_between ids e && text_eq e.to id

abbrev joins : List Text → Text → Text → Relation → Bool
joins ids u v e = is_between ids e && (text_eq e.from u && text_eq e.to v)

includes-new_texts :
    (x : Text) (seen ts : List Text)
    → includes x (new_texts seen ts) ≡ (includes x ts && not (includes x seen))
unfolding includes
includes-new_texts x seen [] = refl
includes-new_texts x seen (t ∷ ts) =
    ground
      (arith, includes-new_texts x seen ts, includes-new_texts x (t ∷ seen) ts, text_eq_iff t x)

module _ (ids : List Text) where
  edge_incoming :
      (id : Text) (e : Relation) (a : Adjacency)
      → ltb 0 ((count_edge ids e a).incoming id) ≡ (ltb 0 (a.incoming id) || ends_at ids id e)
  unfolding count_edge
  edge_incoming id e a = ground (arith, text_eq_iff id e.to, text_eq_iff e.to id)

  edge_outgoing :
      (id : Text) (e : Relation) (a : Adjacency)
      → ltb 0 ((count_edge ids e a).outgoing id) ≡ (ltb 0 (a.outgoing id) || starts_at ids id e)
  unfolding count_edge
  edge_outgoing id e a = ground (arith, text_eq_iff id e.from, text_eq_iff e.from id)

  edge_targets :
      (u v : Text) (e : Relation) (a : Adjacency)
      → includes v ((count_edge ids e a).targets u) ≡ (includes v (a.targets u) || joins ids u v e)
  unfolding count_edge includes
  edge_targets u v e a = ground (
    arith,
    text_eq_iff u e.from,
    text_eq_iff e.from u,
    text_eq_iff e.to v,
    includes-append v (a.targets e.from) (e.to ∷ []),
  )

  edges_incoming :
      (id : Text) (es : List Relation) (a : Adjacency)
      → ltb 0 ((count_edges ids es a).incoming id)
        ≡ (ltb 0 (a.incoming id) || any (ends_at ids id) es)
  unfolding count_edges
  edges_incoming id [] a = ground arith
  edges_incoming id (e ∷ es) a =
      ground (arith, edges_incoming id es (count_edge ids e a), edge_incoming id e a)

  edges_outgoing :
      (id : Text) (es : List Relation) (a : Adjacency)
      → ltb 0 ((count_edges ids es a).outgoing id)
        ≡ (ltb 0 (a.outgoing id) || any (starts_at ids id) es)
  unfolding count_edges
  edges_outgoing id [] a = ground arith
  edges_outgoing id (e ∷ es) a =
      ground (arith, edges_outgoing id es (count_edge ids e a), edge_outgoing id e a)

  edges_targets :
      (u v : Text) (es : List Relation) (a : Adjacency)
      → includes v ((count_edges ids es a).targets u)
        ≡ (includes v (a.targets u) || any (joins ids u v) es)
  unfolding count_edges
  edges_targets u v [] a = ground arith
  edges_targets u v (e ∷ es) a =
      ground (arith, edges_targets u v es (count_edge ids e a), edge_targets u v e a)

-- Some edge leads from the one to the other.
abbrev pub has_edge : Workflow → Text → Text → Bool
has_edge w u v = any (λ (e : Relation). text_eq e.from u && text_eq e.to v) w.edges

abbrev pub is_node : Workflow → Text → Bool
is_node w id = includes id w.nodes

-- A node, or an id from which edges between nodes lead on.
pub data Leads (w : Workflow) (from : Text) : Text → Type 0 where
  start : Leads w from from
  along :
      {u v : Text}
      → Leads w from u
      → is_node w u ≡ true
      → is_node w v ≡ true
      → has_edge w u v ≡ true
      → Leads w from v

-- Some edge from a node leads to the one that is asked for.
abbrev pub has_source : Workflow → Text → Bool
has_source w id = any (λ (e : Relation). is_node w e.from && text_eq e.to id) w.edges

abbrev pub has_sink : Workflow → Text → Bool
has_sink w id = any (λ (e : Relation). is_node w e.to && text_eq e.from id) w.edges

pub includes-new_texts_nil :
    (x : Text) (ts : List Text) → includes x (new_texts [] ts) ≡ includes x ts
unfolding includes
includes-new_texts_nil x ts = ground (arith, includes-new_texts x [] ts)

pub is_node-node_ids : (w : Workflow) (id : Text) → includes id (node_ids_of w) ≡ is_node w id
is_node-node_ids w id = includes-new_texts_nil id w.nodes

any-joins :
    (w : Workflow) (u v : Text) (es : List Relation)
    → any (joins (node_ids_of w) u v) es ≡ (
        is_node w u
        && (is_node w v && any (λ (e : Relation). text_eq e.from u && text_eq e.to v) es))
any-joins w u v [] = ground arith
any-joins w u v (e ∷ es) = ground (
  arith,
  any-joins w u v es,
  is_node-node_ids w e.from,
  is_node-node_ids w e.to,
  text_eq_iff e.from u,
  text_eq_iff e.to v,
)

any-ends_at :
    (w : Workflow) (id : Text) (es : List Relation)
    → is_node w id ≡ true
    → any (ends_at (node_ids_of w) id) es
      ≡ any (λ (e : Relation). is_node w e.from && text_eq e.to id) es
any-ends_at w id [] h = refl
any-ends_at w id (e ∷ es) h = ground (
  arith,
  any-ends_at w id es,
  is_node-node_ids w e.from,
  is_node-node_ids w e.to,
  text_eq_iff e.to id,
)

any-starts_at :
    (w : Workflow) (id : Text) (es : List Relation)
    → is_node w id ≡ true
    → any (starts_at (node_ids_of w) id) es
      ≡ any (λ (e : Relation). is_node w e.to && text_eq e.from id) es
any-starts_at w id [] h = refl
any-starts_at w id (e ∷ es) h = ground (
  arith,
  any-starts_at w id es,
  is_node-node_ids w e.from,
  is_node-node_ids w e.to,
  text_eq_iff e.from id,
)

ended-found : (o : Outcome) → is_found o ≡ true → o ≡ found
ended-found found h = refl
ended-found exhausted h = cc
ended-found out_of_fuel h = cc

found_or : (o : Outcome) → (o ≡ found) ⊎ ((o ≡ exhausted) ⊎ (o ≡ out_of_fuel))
found_or found = inl refl
found_or exhausted = inr (inl refl)
found_or out_of_fuel = inr (inr refl)

module _ (w : Workflow) where
  pub incoming-has_source :
      (id : Text) → is_node w id ≡ true → ltb 0 ((adjacency_of w).incoming id) ≡ has_source w id
  unfolding count_edges
  incoming-has_source id h =
      edges_incoming (node_ids_of w) id w.edges no_edges ∙ any-ends_at w id w.edges h

  pub outgoing-has_sink :
      (id : Text) → is_node w id ≡ true → ltb 0 ((adjacency_of w).outgoing id) ≡ has_sink w id
  unfolding count_edges
  outgoing-has_sink id h =
      edges_outgoing (node_ids_of w) id w.edges no_edges ∙ any-starts_at w id w.edges h

  targets-has_edge :
      (u v : Text)
      → includes v ((adjacency_of w).targets u) ≡ (is_node w u && (is_node w v && has_edge w u v))
  unfolding includes count_edges
  targets-has_edge u v =
      edges_targets (node_ids_of w) u v w.edges no_edges ∙ any-joins w u v w.edges

  Walk-Leads : {from to : Text} → Walk (adjacency_of w).targets from to → Leads w from to
  Walk-Leads here = start
  Walk-Leads (step {u} {v} p e) =
      let law = targets-has_edge u v in
      along (Walk-Leads p) (ground arith) (ground arith) (ground arith)

  Leads-Walk : {from to : Text} → Leads w from to → Walk (adjacency_of w).targets from to
  Leads-Walk start = here
  Leads-Walk (along {u} {v} p h k e) =
      let law = targets-has_edge u v in step (Leads-Walk p) (ground arith)

  -- The search ends within a round for each node and one for the start.
  search_from-ends : (from to : Text) → search_from w from to ≢ out_of_fuel
  unfolding search_from
  search_from-ends from to =
      start-ends (adjacency_of w).targets to from (node_ids_of w)
        λ u v e. let law = targets-has_edge u v in ground (arith, is_node-node_ids w v)

  -- The search for a path finds an id exactly if edges between nodes lead to it.
  pub reachable-Leads : (from to : Text) → (reachable w from to ≡ true) ↔ Leads w from to
  unfolding search_from includes count_edges
  reachable-Leads from to = (
    λ h. Walk-Leads (
        start-found (adjacency_of w).targets to from (suc (length (node_ids_of w)))
          (ended-found _ h)),
    λ p. elim (found_or (search_from w from to)) [
      | inl e ↦ ap is_found e
      | inr (inl e) ↦ absurd (
          start-exhausted (adjacency_of w).targets to from (suc (length (node_ids_of w))) e
            (Leads-Walk p))
      | inr (inr e) ↦ absurd (search_from-ends from to e)
    ],
  )
