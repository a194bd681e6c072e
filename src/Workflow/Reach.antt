-- ===== src/Workflow/Reach.antt =====
-- `reachable` of renderers/workflow/workflow-compiler.mjs finds exactly the nodes that a walk leads
-- to, within its fuel.
use codearmory_blacksmith.Base.{
  ℕ, zero, suc, ◌+◌, ◌≤◌, ◌<◌, ◌≡◌, ◌≢◌, ◌⊎◌, inl, inr, refl, Text, List, [], ◌∷◌, ◌++◌, Bool, true,
  false, not, ◌&&◌, ◌||◌, text_eq, text_eq_iff, text_eq_refl, includes, length, length-append,
  filter, arith, Bool-cases,
}
use codearmory_blacksmith.Update.State.Acknowledge.{includes-append}
use codearmory_blacksmith.Workflow.Search.{
  Search, offer, scan, found, exhausted, out_of_fuel, search,
}

offer_visited :
    (x v : Text) (s : Search)
    → includes x (offer v s).visited ≡ (includes x s.visited || text_eq v x)
unfolding offer includes
offer_visited x v s = ground (arith, includes-append x s.visited (v ∷ []), text_eq_iff v x)

offer_pending :
    (x v : Text) (s : Search)
    → includes x (offer v s).pending
      ≡ (includes x s.pending || (text_eq v x && not (includes x s.visited)))
unfolding offer includes
offer_pending x v s = ground (arith, includes-append x s.pending (v ∷ []), text_eq_iff v x)

scan_visited :
    (x : Text) (vs : List Text) (s : Search)
    → includes x (scan vs s).visited ≡ (includes x s.visited || includes x vs)
unfolding scan includes
scan_visited x [] s = ground arith
scan_visited x (v ∷ vs) s = ground (arith, scan_visited x vs (offer v s), offer_visited x v s)

scan_pending :
    (x : Text) (vs : List Text) (s : Search)
    → includes x (scan vs s).pending
      ≡ (includes x s.pending || (includes x vs && not (includes x s.visited)))
unfolding scan includes
scan_pending x [] s = ground arith
scan_pending x (v ∷ vs) s =
    ground (arith, scan_pending x vs (offer v s), offer_pending x v s, offer_visited x v s)

-- The nodes that are not visited yet.
abbrev unvisited : List Text → List Text → ℕ
unvisited visited nodes = length (filter (λ n. not (includes n visited)) nodes)

unvisited_mono :
    (visited : List Text) (v : Text) (nodes : List Text)
    → unvisited (visited ++ v ∷ []) nodes ≤ unvisited visited nodes
unfolding includes
unvisited_mono visited v [] = omega arith
unvisited_mono visited v (n ∷ ns) =
    ground (arith, unvisited_mono visited v ns, includes-append n visited (v ∷ []))

unvisited_falls :
    (visited : List Text) (v : Text) (nodes : List Text)
    → includes v nodes ≡ true
    → includes v visited ≡ false
    → unvisited (visited ++ v ∷ []) nodes < unvisited visited nodes
unfolding includes
unvisited_falls visited v [] h k = cc
unvisited_falls visited v (n ∷ ns) h k = ground (
  arith,
  unvisited_falls visited v ns,
  unvisited_mono visited v ns,
  includes-append n visited (v ∷ []),
  text_eq_iff n v,
  text_eq_refl v,
)

module _ (nodes : List Text) where
  abbrev work : Search → ℕ
  work s = unvisited s.visited nodes + length s.pending

  abbrev Known : List Text → Type 0
  Known vs = (v : Text) → includes v vs ≡ true → includes v nodes ≡ true

  work-offer : (v : Text) (s : Search) → includes v nodes ≡ true → work (offer v s) ≤ work s
  unfolding offer
  work-offer v s h =
      ground (arith, unvisited_falls s.visited v nodes, length-append s.pending (v ∷ []))

  work-scan : (vs : List Text) (s : Search) → Known vs → work (scan vs s) ≤ work s
  unfolding scan includes
  work-scan [] s h = omega arith
  work-scan (v ∷ vs) s h =
      let head : includes v nodes ≡ true = h v (ground (arith, text_eq_refl v)) in
      let tail = work-scan vs (offer v s) (λ x k. h x (ground arith)) in
      omega (arith, tail, work-offer v s head)

length-filter : (p : Text → Bool) (xs : List Text) → length (filter p xs) ≤ length xs
length-filter p [] = omega arith
length-filter p (x ∷ xs) = ground (arith, length-filter p xs)

-- A walk along the targets.
pub data Walk (targets : Text → List Text) (from : Text) : Text → Type 0 where
  here : Walk targets from from
  step : {u v : Text} → Walk targets from u → includes v (targets u) ≡ true → Walk targets from v

module _ (targets : Text → List Text) (to : Text) where
  -- With a round for each node that waits or is not visited, the fuel is enough.
  search_ends :
      (nodes : List Text)
      → ((u v : Text) → includes v (targets u) ≡ true → includes v nodes ≡ true)
      → (fuel : ℕ) (visited pending : List Text) → unvisited visited nodes + length pending ≤ fuel
      → search targets to fuel visited pending ≢ out_of_fuel
  unfolding search
  search_ends nodes known fuel visited [] h = λ e. ground arith
  search_ends nodes known zero visited (c ∷ cs) h = absurd (omega arith)
  search_ends nodes known (suc fuel) visited (c ∷ cs) h =
      let s : Search = record { visited = visited; pending = cs } in
      let less = work-scan nodes (targets c) s (known c) in
      let rest =
        search_ends nodes known fuel (scan (targets c) s).visited (scan (targets c) s).pending
          (omega arith) in
      λ e. elim (Bool-cases (text_eq c to)) [
        | inl there ↦ ground arith
        | inr further ↦ rest (rw further at e)
      ]

  module _ (from : Text) where
    record Inv (visited pending : List Text) : Type 0 where
      start : includes from visited ≡ true
      queued : (v : Text) → includes v pending ≡ true → Walk targets from v
      closed :
          (u : Text)
          → includes u visited ≡ true
          → (includes u pending ≡ true)
            ⊎ ((u ≢ to) × ((v : Text) → includes v (targets u) ≡ true → includes v visited ≡ true))

    Inv-scan :
        (c : Text) (cs visited : List Text)
        → c ≢ to
        → Inv visited (c ∷ cs)
        → Inv
            (scan (targets c) (record { visited = visited; pending = cs })).visited
            (scan (targets c) (record { visited = visited; pending = cs })).pending
    unfolding includes
    Inv-scan c cs visited away inv =
        let s : Search = record { visited = visited; pending = cs } in
        let flags = λ (x : Text). scan_visited x (targets c) s in
        let queue = λ (x : Text). scan_pending x (targets c) s in
        let to_c = inv.queued c (ground (arith, text_eq_refl c)) in
        record {
          start = ground (arith, flags from, inv.start);
          queued = λ v q. elim (Bool-cases (includes v cs)) [
            | inl old ↦ inv.queued v (ground arith)
            | inr new ↦ step to_c (ground (arith, queue v))
          ];
          closed = λ u m. elim (Bool-cases (text_eq c u)) [
            | inl same ↦ inr (
              ground (arith, text_eq_iff c u),
              λ v e. let e' = rw (← (text_eq_iff c u).0 same) at e in ground (arith, flags v),
            )
            | inr other ↦ elim (Bool-cases (includes u visited)) [
              | inl before ↦ elim (inv.closed u before) [
                | inl waits ↦ inl (ground (arith, queue u))
                | inr (far, all) ↦ inr (far, λ v e. ground (arith, flags v, all v e))
              ]
              | inr fresh ↦ inl (ground (arith, flags u, queue u))
            ]
          ];
        }

    visited-Walk :
        (visited : List Text)
        → Inv visited []
        → {v : Text} → Walk targets from v
        → includes v visited ≡ true
    unfolding includes
    visited-Walk visited inv here = inv.start
    visited-Walk visited inv (step {u} {v} p e) = elim (inv.closed u (visited-Walk visited inv p)) [
      | inl waits ↦ cc
      | inr (far, all) ↦ all v e
    ]

    no_walk : (visited : List Text) → Inv visited [] → ¬ Walk targets from to
    unfolding includes
    no_walk visited inv p = elim (inv.closed to (visited-Walk visited inv p)) [
      | inl waits ↦ cc
      | inr (far, all) ↦ far refl
    ]

    search-found :
        (fuel : ℕ) (visited pending : List Text)
        → Inv visited pending
        → search targets to fuel visited pending ≡ found
        → Walk targets from to
    unfolding search includes
    search-found fuel visited [] inv e = cc
    search-found zero visited (c ∷ cs) inv e = cc
    search-found (suc fuel) visited (c ∷ cs) inv e = elim (Bool-cases (text_eq c to)) [
      | inl there ↦
          let same = (text_eq_iff c to).0 there in
          rw (← same) (inv.queued c (ground (arith, text_eq_refl c)))
      | inr further ↦
          search-found fuel _ _ (Inv-scan c cs visited (ground (arith, text_eq_iff c to)) inv)
            (rw further at e)
    ]

    search-exhausted :
        (fuel : ℕ) (visited pending : List Text)
        → Inv visited pending
        → search targets to fuel visited pending ≡ exhausted
        → ¬ Walk targets from to
    unfolding search
    search-exhausted fuel visited [] inv e = no_walk visited inv
    search-exhausted zero visited (c ∷ cs) inv e = cc
    search-exhausted (suc fuel) visited (c ∷ cs) inv e = elim (Bool-cases (text_eq c to)) [
      | inl there ↦ ground arith
      | inr further ↦
          search-exhausted fuel _ _ (Inv-scan c cs visited (ground (arith, text_eq_iff c to)) inv)
            (rw further at e)
    ]

    Inv-start : Inv (from ∷ []) (from ∷ [])
    unfolding includes
    Inv-start = record {
      start = ground (arith, text_eq_refl from);
      queued = λ v q. let same = (text_eq_iff from v).0 (ground arith) in rw (← same) here;
      closed = λ u m. inl m;
    }

    pub start-found :
        (fuel : ℕ) → search targets to fuel (from ∷ []) (from ∷ []) ≡ found → Walk targets from to
    start-found fuel = search-found fuel _ _ Inv-start

    pub start-exhausted :
        (fuel : ℕ)
        → search targets to fuel (from ∷ []) (from ∷ []) ≡ exhausted
        → ¬ Walk targets from to
    start-exhausted fuel = search-exhausted fuel _ _ Inv-start

    pub start-ends :
        (nodes : List Text)
        → ((u v : Text) → includes v (targets u) ≡ true → includes v nodes ≡ true)
        → search targets to (suc (length nodes)) (from ∷ []) (from ∷ []) ≢ out_of_fuel
    start-ends nodes known =
        search_ends nodes known (suc (length nodes)) (from ∷ []) (from ∷ [])
          (omega (arith, length-filter (λ n. not (includes n (from ∷ []))) nodes))
