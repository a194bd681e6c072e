-- ===== src/Render/Profile.antt =====
-- renderers/shared/engineering-profiles.mjs: the profile `deployment-ownership`. A diagram has the
-- types that the schema of an architecture gives it, which is checked before the profile.
use codearmory_blacksmith.Base.{
  ℕ, Text, codes, List, [], ◌∷◌, ◌++◌, map, Bool, true, not, ◌&&◌, ◌||◌, Option, none, some,
  text_eq, includes, if◌then◌else◌, ltb, ◌==◌, length, all, filter, indexed, for_each,
}
use codearmory_blacksmith.Base.Trim.{trim, trim_start, trim_end}
use codearmory_blacksmith.Json.{
  Value, Items, Fields, num, str, arr, obj, nil, cons, end, field, join_texts,
}
use codearmory_blacksmith.Json.Size.{natural_number}
use codearmory_blacksmith.Delta.Canonical.{quote}
use codearmory_blacksmith.Render.Diagnostics.{
  Diagnostic, error, Recorder, Thrown, diagnostic_value, throw_diagnostic_error,
}

-- An absent tag, id or label is `none`.
pub record Component : Type 0 where
  pub id : Text
  pub kind : Text
  pub tag : Option Text

pub record Boundary : Type 0 where
  pub kind : Text
  pub label : Text
  pub wraps : List Text

pub record Connection : Type 0 where
  pub id : Option Text
  pub from : Text
  pub to : Text
  pub label : Option Text

pub record Diagram : Type 0 where
  pub engineering_profile : Option Text
  pub components : List Component
  pub boundaries : List Boundary
  pub connections : List Connection

abbrev pub region : Text
region = codes "region"

abbrev pub security_group : Text
security_group = codes "security-group"

abbrev pub deployment_profile : Text
deployment_profile = codes "deployment-ownership"

abbrev pub deployment_boundary_kinds : List Text
deployment_boundary_kinds = region ∷ security_group ∷ []

abbrev pub private_state_types : List Text
private_state_types = codes "database" ∷ []

abbrev number : ℕ → Value
number n = num (natural_number n)

abbrev minus_one : Value
minus_one = num (record { natural = none; text = codes "-1" })

abbrev id_field : Option Text → Fields
id_field none = end
id_field (some []) = end
id_field (some (c ∷ cs)) = field (codes "id") (str (c ∷ cs)) end

abbrev pub subject_of : Text → Value → Option Text → Fields
subject_of collection index id = field (codes "diagramType") (str (codes "architecture")) (
    field (codes "profile") (str deployment_profile)
      (field (codes "collection") (str collection) (field (codes "index") index (id_field id))))

abbrev pub finding : Text → Text → Fields → Fields → Text → Diagnostic
finding code message subject evidence fix = record {
  code = codes "engineering/" ++ code;
  severity = error;
  message = message;
  subject = subject;
  evidence = evidence;
  supported_fixes = fix ∷ [];
  suppresses = none;
}

unfoldable pub is_member : Text → Text → Boundary → Bool
unfolding text_eq includes
is_member id kind b = text_eq b.kind kind && includes id b.wraps

unfoldable pub membership : List Boundary → Text → Text → List (ℕ × Boundary)
unfolding is_member
membership boundaries id kind =
    filter (λ (p : ℕ × Boundary). is_member id kind p.1) (indexed 0 boundaries)

-- `typeof text !== 'string' || text.trim() === ''`
abbrev pub is_blank : Option Text → Bool
is_blank none = true
is_blank (some t) = text_eq (trim t) []

unfoldable pub kind_diagnostics : List Boundary → Text → List Diagnostic
unfolding text_eq
kind_diagnostics boundaries kind =
    let found = length (filter (λ (b : Boundary). text_eq b.kind kind) boundaries) in
    if ltb 0 found
    then []
    else finding (codes "deployment-boundary-kind")
        (codes "Deployment ownership requires at least one " ++ (kind ++ codes " boundary."))
        (subject_of (codes "boundaries") minus_one none)
        (field (codes "requiredKind") (str kind) (field (codes "found") (number found) end))
        (codes "add one " ++ (kind ++ codes " boundary with an explicit wraps list"))
      ∷ []

abbrev deployment_component : Component → Text → Text
unfolding quote
deployment_component c rest = codes "Deployment component " ++ (quote c.id ++ rest)

abbrev component_subject : ℕ → Component → Fields
component_subject i c = subject_of (codes "components") (number i) (some c.id)

unfoldable pub owner_diagnostics : ℕ → Component → List Diagnostic
unfolding trim_start trim_end text_eq quote natural_number
owner_diagnostics i c =
    if is_blank c.tag
    then finding (codes "deployment-owner-missing")
        (deployment_component c (codes " does not name its owner in tag.")) (component_subject i c)
        (field (codes "componentType") (str c.kind)
          (field (codes "ownerField") (str (codes "tag")) end))
        (codes "set /components/"
          ++ ((natural_number i).text ++ codes "/tag to the responsible team or owner"))
      ∷ []
    else []

abbrev pub region_value : ℕ × Boundary → Value
region_value p =
    obj (field (codes "boundaryIndex") (number p.0) (field (codes "label") (str p.1.label) end))

abbrev pub values {ℓ} : {A : Type ℓ} → (A → Value) → List A → Items
values f [] = nil
values f (x ∷ xs) = cons (f x) (values f xs)

unfoldable pub region_diagnostics : ℕ → Component → List (ℕ × Boundary) → List Diagnostic
unfolding quote natural_number
region_diagnostics i c [] =
    finding (codes "deployment-region-scope")
      (deployment_component c (codes " is not assigned to a region boundary."))
      (component_subject i c)
      (field (codes "componentType") (str c.kind)
        (field (codes "regionMemberships") (number 0) end))
      (codes "add the component id to the real region boundary wraps list")
    ∷ []
region_diagnostics i c (r ∷ []) = []
region_diagnostics i c (r ∷ s ∷ rest) =
    finding (codes "deployment-region-ambiguous")
      (deployment_component c (codes " belongs to more than one region boundary."))
      (component_subject i c)
      (field (codes "componentType") (str c.kind)
        (field (codes "regions") (arr (values region_value (r ∷ s ∷ rest))) end))
      (codes "keep the component id in exactly one real region boundary wraps list")
    ∷ []

unfoldable pub private_diagnostics : ℕ → Component → List (ℕ × Boundary) → List Diagnostic
unfolding quote includes natural_number
private_diagnostics i c (s ∷ rest) = []
private_diagnostics i c [] =
    if includes c.kind private_state_types
    then finding (codes "deployment-private-state")
        (codes "Stateful component "
          ++ (quote c.id ++ codes " is not assigned to a private security-group boundary."))
        (component_subject i c)
        (field (codes "componentType") (str c.kind)
          (field (codes "privateMemberships") (number 0) end))
        (codes "add the component id to the real private security-group boundary wraps list")
      ∷ []
    else []

unfoldable pub component_diagnostics : List Boundary → ℕ → Component → List Diagnostic
unfolding owner_diagnostics region_diagnostics private_diagnostics membership text_eq
component_diagnostics boundaries i c =
    if text_eq c.kind (codes "external")
    then []
    else owner_diagnostics i c
      ++ (region_diagnostics i c (membership boundaries c.id region)
          ++ private_diagnostics i c (membership boundaries c.id security_group))

-- `new Set(numbers)`, of which only the size is used
abbrev pub distinct_numbers : List ℕ → List ℕ
distinct_numbers [] = []
distinct_numbers (n ∷ rest) = n ∷ filter (λ m. not (m == n)) (distinct_numbers rest)

abbrev pub indexes : List (ℕ × Boundary) → List ℕ
indexes ps = map (λ (p : ℕ × Boundary). p.0) ps

abbrev pub region_indexes : List (List (ℕ × Boundary)) → List ℕ
region_indexes [] = []
region_indexes (ps ∷ rest) = indexes ps ++ region_indexes rest

abbrev pub is_consistent : List (List (ℕ × Boundary)) → Bool
is_consistent members =
    ltb 0 (length members)
    && all (λ (ps : List (ℕ × Boundary)). length ps == 1) members
    && (length (distinct_numbers (region_indexes members)) == 1)

abbrev member_value : List Boundary → Text → Value
unfolding membership
member_value boundaries id = obj (
    field (codes "id") (str id)
      (field (codes "regions") (arr (values region_value (membership boundaries id region))) end))

unfoldable pub boundary_diagnostics : List Boundary → ℕ → Boundary → List Diagnostic
unfolding text_eq membership quote
boundary_diagnostics boundaries i b =
    if not (text_eq b.kind security_group)
      || is_consistent (map (λ id. membership boundaries id region) b.wraps)
    then []
    else finding (codes "deployment-private-region-consistency")
        (codes "Private boundary "
          ++ (quote b.label ++ codes " must contain components from exactly one shared region."))
        (subject_of (codes "boundaries") (number i) none)
        (field (codes "boundaryKind") (str b.kind)
          (field (codes "members") (arr (values (member_value boundaries) b.wraps)) end))
        (codes "assign every private-boundary component to exactly one shared region boundary")
      ∷ []

unfoldable pub is_crossed : Connection → Boundary → Bool
unfolding includes
is_crossed c b =
    let inside = includes c.from b.wraps in
    includes b.kind deployment_boundary_kinds
    && (if includes c.to b.wraps then not inside else inside)

unfoldable pub crossed_boundaries : List Boundary → Connection → List (ℕ × Boundary)
unfolding is_crossed
crossed_boundaries boundaries c =
    filter (λ (p : ℕ × Boundary). is_crossed c p.1) (indexed 0 boundaries)

abbrev crossed_value : ℕ × Boundary → Value
crossed_value p = obj (
    field (codes "boundaryIndex") (number p.0)
      (field (codes "kind") (str p.1.kind) (field (codes "label") (str p.1.label) end)))

-- connection.id || `${connection.from}->${connection.to}`
abbrev connection_name : Connection → Option Text → Text
connection_name c none = c.from ++ (codes "->" ++ c.to)
connection_name c (some []) = c.from ++ (codes "->" ++ c.to)
connection_name c (some (x ∷ xs)) = x ∷ xs

unfoldable pub connection_diagnostics : List Boundary → ℕ → Connection → List Diagnostic
unfolding trim_start trim_end text_eq crossed_boundaries quote natural_number
connection_diagnostics boundaries i c =
    if length (crossed_boundaries boundaries c) == 0 || not (is_blank c.label)
    then []
    else finding (codes "deployment-crossing-mechanism")
        (codes "Cross-boundary connection "
          ++ (quote (connection_name c c.id) ++ codes " does not name its mechanism."))
        (subject_of (codes "connections") (number i) c.id)
        (field (codes "from") (str c.from) (
          field (codes "to") (str c.to) (
            field (codes "crossedBoundaries")
              (arr (values crossed_value (crossed_boundaries boundaries c))) end)))
        (codes "set /connections/"
          ++ ((natural_number i).text ++ codes "/label to the real cross-boundary mechanism"))
      ∷ []

unfoldable pub deployment_ownership_diagnostics : Diagram → List Diagnostic
unfolding kind_diagnostics component_diagnostics boundary_diagnostics connection_diagnostics
deployment_ownership_diagnostics d =
    for_each (λ i kind. kind_diagnostics d.boundaries kind) 0 deployment_boundary_kinds
    ++ (for_each (component_diagnostics d.boundaries) 0 d.components
        ++ (for_each (boundary_diagnostics d.boundaries) 0 d.boundaries
            ++ for_each (connection_diagnostics d.boundaries) 0 d.connections))

abbrev bullet_lines : List Diagnostic → List Text
bullet_lines ds = map (λ (d : Diagnostic). codes "- " ++ d.message) ds

abbrev profile_error : Text → List Diagnostic → Recorder → Option Thrown × Recorder
unfolding throw_diagnostic_error quote join_texts
profile_error profile [] r = (none, r)
profile_error profile (x ∷ xs) r =
    let thrown =
      throw_diagnostic_error
        (codes "Engineering profile "
          ++ (quote profile
              ++ (codes " failed:" ++ (10 ∷ join_texts (10 ∷ []) (bullet_lines (x ∷ xs))))))
        (map diagnostic_value (x ∷ xs)) r in
    (some thrown.0, thrown.1)

abbrev validate_named : Text → Diagram → Option Text → Recorder → Option Thrown × Recorder
unfolding deployment_ownership_diagnostics throw_diagnostic_error quote join_texts text_eq
validate_named diagram_type d none r = (none, r)
validate_named diagram_type d (some profile) r =
    let errors = profile_error profile (deployment_ownership_diagnostics d) r in
    if text_eq diagram_type (codes "architecture") && text_eq profile deployment_profile
    then errors
    else (none, r)

-- Returns nothing, or throws.
unfoldable pub validate_engineering_profile : Text → Diagram → Recorder → Option Thrown × Recorder
unfolding deployment_ownership_diagnostics throw_diagnostic_error quote join_texts text_eq
validate_engineering_profile diagram_type d r =
    validate_named diagram_type d d.engineering_profile r
