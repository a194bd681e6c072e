-- ===== src/Render/Ownership.antt =====
-- What the profile `deployment-ownership` accepts, said without its diagnostics.
use codearmory_blacksmith.Base.{
  ℕ, suc, ◌≡◌, ◌↔◌, refl, sym, ◌∙◌, Text, codes, List, [], ◌∷◌, map, Bool, true, false, not, ◌||◌,
  text_eq, includes, if◌then◌else◌, ltb, length, any, filter, indexed, for_each_nil, append_nil_iff,
  Each, arith,
}
use mathlib.Core.Bool.{true≢false}
use codearmory_blacksmith.Render.Consistent.{is_consistent_iff}
use codearmory_blacksmith.Render.Profile.{
  Component, Boundary, Connection, Diagram, region, security_group, private_state_types,
  deployment_boundary_kinds, is_member, membership, is_blank, kind_diagnostics, owner_diagnostics,
  region_diagnostics, private_diagnostics, component_diagnostics, indexes, is_consistent,
  boundary_diagnostics, is_crossed, crossed_boundaries, connection_diagnostics,
  deployment_ownership_diagnostics,
}

-- The places of the region boundaries that list the id.
abbrev pub regions_from : ℕ → Text → List Boundary → List ℕ
unfolding is_member
regions_from i id [] = []
regions_from i id (b ∷ bs) =
    let rest = regions_from (suc i) id bs in if is_member id region b then i ∷ rest else rest

abbrev pub regions_of : List Boundary → Text → List ℕ
unfolding is_member
regions_of bs id = regions_from 0 id bs

abbrev pub HasKind : List Boundary → Text → Type 0
unfolding text_eq
HasKind bs kind = any (λ (b : Boundary). text_eq b.kind kind) bs ≡ true

-- Exactly one region lists the id.
abbrev pub HasRegion : List Boundary → Text → Type 0
unfolding is_member
HasRegion bs id = (r : ℕ) × (regions_of bs id ≡ r ∷ [])

-- A component that keeps state stands in a security group.
abbrev pub HasShelter : List Boundary → Component → Type 0
unfolding includes is_member
HasShelter bs c =
    includes c.kind private_state_types ≡ true → any (is_member c.id security_group) bs ≡ true

-- A component that is not external names its owner, stands in one region and, if it keeps state, in
-- a security group.
abbrev pub IsPlaced : List Boundary → Component → Type 0
unfolding text_eq includes is_member
IsPlaced bs c =
    text_eq c.kind (codes "external") ≡ false
    → (is_blank c.tag ≡ false) × (HasRegion bs c.id × HasShelter bs c)

-- A security group is not empty, and one region holds all that it lists.
abbrev pub IsPrivate : List Boundary → Boundary → Type 0
unfolding text_eq is_member
IsPrivate bs b =
    text_eq b.kind security_group ≡ true
    → ((id : Text) × (rest : List Text) × (b.wraps ≡ id ∷ rest))
      × ((r : ℕ) × Each (λ id. regions_of bs id ≡ r ∷ []) b.wraps)

-- A connection out of a boundary is labelled.
abbrev pub IsLabelled : List Boundary → Connection → Type 0
unfolding is_crossed
IsLabelled bs c = any (is_crossed c) bs ≡ true → is_blank c.label ≡ false

pub IsOwned : Diagram → Type 0
unfolding text_eq includes is_member is_crossed
IsOwned d =
    Each (HasKind d.boundaries) deployment_boundary_kinds
    × (Each (IsPlaced d.boundaries) d.components
        × (Each (IsPrivate d.boundaries) d.boundaries
            × Each (IsLabelled d.boundaries) d.connections))

indexes-membership :
    (bs : List Boundary) (i : ℕ) (id : Text)
    → indexes (filter (λ (p : ℕ × Boundary). is_member id region p.1) (indexed i bs))
      ≡ regions_from i id bs
unfolding regions_from
indexes-membership [] i id = refl
indexes-membership (b ∷ bs) i id = ground (arith, indexes-membership bs (suc i) id)

count_indexed :
    {A : Type 0} (p : A → Bool) (i : ℕ) (xs : List A)
    → ltb 0 (length (filter (λ (q : ℕ × A). p q.1) (indexed i xs))) ≡ any p xs
count_indexed p i [] = refl
count_indexed p i (x ∷ xs) = ground (arith, count_indexed p (suc i) xs)

count_any : {A : Type 0} (p : A → Bool) (xs : List A) → ltb 0 (length (filter p xs)) ≡ any p xs
count_any p [] = refl
count_any p (x ∷ xs) = ground (arith, count_any p xs)

kind_diagnostics_nil :
    (bs : List Boundary) (kind : Text) → (kind_diagnostics bs kind ≡ []) ↔ HasKind bs kind
unfolding kind_diagnostics
kind_diagnostics_nil bs kind = ground (arith, count_any (λ (b : Boundary). text_eq b.kind kind) bs)

owner_diagnostics_nil :
    (i : ℕ) (c : Component) → (owner_diagnostics i c ≡ []) ↔ (is_blank c.tag ≡ false)
unfolding owner_diagnostics
owner_diagnostics_nil i c = ground arith

region_diagnostics_nil :
    (i : ℕ) (c : Component) (ps : List (ℕ × Boundary))
    → (region_diagnostics i c ps ≡ []) ↔ ((r : ℕ) × (indexes ps ≡ r ∷ []))
unfolding region_diagnostics
region_diagnostics_nil i c [] = (λ h. cc, λ h. cc)
region_diagnostics_nil i c (p ∷ []) = (λ h. (p.0, refl), λ h. refl)
region_diagnostics_nil i c (p ∷ q ∷ ps) = (λ h. cc, λ h. cc)

private_diagnostics_nil :
    (i : ℕ) (c : Component) (ps : List (ℕ × Boundary))
    → (private_diagnostics i c ps ≡ [])
      ↔ (includes c.kind private_state_types ≡ true → ltb 0 (length ps) ≡ true)
unfolding private_diagnostics
private_diagnostics_nil i c [] = ground arith
private_diagnostics_nil i c (p ∷ ps) = (λ h k. ground arith, λ h. refl)

unless_nil :
    {A P : Type 0} (b : Bool) (xs : List A)
    → (xs ≡ []) ↔ P
    → ((if b then [] else xs) ≡ []) ↔ (b ≡ false → P)
unless_nil true xs law = (λ h k. elim (true≢false k) [ ], λ h. refl)
unless_nil false xs law = (λ h k. law.0 h, λ h. law.1 (h refl))

component_diagnostics_nil :
    (bs : List Boundary) (i : ℕ) (c : Component)
    → (component_diagnostics bs i c ≡ []) ↔ IsPlaced bs c
unfolding component_diagnostics IsPlaced HasRegion regions_of membership
component_diagnostics_nil bs i c =
    let found = indexes-membership bs 0 c.id in
    let counted = count_indexed (is_member c.id security_group) 0 bs in
    let in_region = region_diagnostics_nil i c _ in
    let in_group = private_diagnostics_nil i c _ in
    unless_nil (text_eq c.kind (codes "external")) _ (
      append_nil_iff {P = is_blank c.tag ≡ false} {Q = HasRegion bs c.id × HasShelter bs c} _ _
        (owner_diagnostics_nil i c)
        (append_nil_iff {P = HasRegion bs c.id} {Q = HasShelter bs c} _ _
          (
            λ h. let t = in_region.0 h in (t.0, sym found ∙ t.1),
            λ h. in_region.1 (h.0, found ∙ h.1),
          )
          (λ h k. sym counted ∙ in_group.0 h k, λ h. in_group.1 (λ k. counted ∙ h k))))

wrapped_regions :
    (bs : List Boundary) (r : ℕ) (ids : List Text)
    → Each (λ ps. indexes ps ≡ r ∷ []) (map (λ id. membership bs id region) ids)
      ↔ Each (λ id. regions_of bs id ≡ r ∷ []) ids
unfolding membership regions_of
wrapped_regions bs r [] = (λ h. tt, λ h. tt)
wrapped_regions bs r (id ∷ ids) =
    let found = indexes-membership bs 0 id in
    let rest = wrapped_regions bs r ids in
    (λ h. (sym found ∙ h.0, rest.0 h.1), λ h. (found ∙ h.0, rest.1 h.1))

wrapped_filled :
    (bs : List Boundary) (ids : List Text)
    → (ltb 0 (length (map (λ id. membership bs id region) ids)) ≡ true)
      ↔ ((id : Text) × (rest : List Text) × (ids ≡ id ∷ rest))
wrapped_filled bs [] = (λ h. cc, λ h. cc)
wrapped_filled bs (id ∷ ids) = (λ h. (id, ids, refl), λ h. ground arith)

accepted :
    {A : Type 0} (checked ok : Bool) (xs : List A)
    → (checked ≡ true → ok ≡ true)
    → (if not checked || ok then [] else xs) ≡ []
accepted false ok xs h = refl
accepted true ok xs h = ground (arith, h refl)

boundary_diagnostics_nil :
    (bs : List Boundary) (i : ℕ) (b : Boundary)
    → (boundary_diagnostics bs i b ≡ []) ↔ IsPrivate bs b
unfolding boundary_diagnostics IsPrivate
boundary_diagnostics_nil bs i b =
    let law = is_consistent_iff (map (λ id. membership bs id region) b.wraps) in
    let filled = wrapped_filled bs b.wraps in
    let consistent = is_consistent (map (λ id. membership bs id region) b.wraps) in
    (
      λ h k.
          let parts = law.0 (ground arith) in
          (filled.0 parts.0, (parts.1.0, (wrapped_regions bs parts.1.0 b.wraps).0 parts.1.1)),
      λ h. accepted (text_eq b.kind security_group) consistent _ (λ k.
          let parts = h k in
          law.1
            (filled.1 parts.0, (parts.1.0, (wrapped_regions bs parts.1.0 b.wraps).1 parts.1.1))),
    )

connection_diagnostics_nil :
    (bs : List Boundary) (i : ℕ) (c : Connection)
    → (connection_diagnostics bs i c ≡ []) ↔ IsLabelled bs c
unfolding connection_diagnostics IsLabelled crossed_boundaries
connection_diagnostics_nil bs i c = ground (arith, count_indexed (is_crossed c) 0 bs)

-- The profile finds nothing exactly if both kinds of boundary occur, each component that is not
-- external names its owner, is in one region and, if it keeps state, in a security group, each
-- security group has its members in one region, and the connections across boundaries are labelled.
pub deployment_ownership_diagnostics-IsOwned :
    (d : Diagram) → (deployment_ownership_diagnostics d ≡ []) ↔ IsOwned d
unfolding deployment_ownership_diagnostics IsOwned
deployment_ownership_diagnostics-IsOwned d =
    let bs = d.boundaries in
    append_nil_iff _ _
      (for_each_nil _ _ (λ i kind. kind_diagnostics_nil bs kind) 0 deployment_boundary_kinds)
      (append_nil_iff _ _ (for_each_nil _ _ (component_diagnostics_nil bs) 0 d.components) (
        append_nil_iff _ _ (for_each_nil _ _ (boundary_diagnostics_nil bs) 0 bs)
          (for_each_nil _ _ (connection_diagnostics_nil bs) 0 d.connections)))
