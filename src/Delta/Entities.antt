-- ===== src/Delta/Entities.antt =====
-- The changes between two maps of items: `fieldChanges`, `statusFor`, `compareEntities`, `summaryFor`.
use codearmory_blacksmith.Base.{
  ℕ, suc, Text, codes, List, [], ◌∷◌, ◌++◌, Bool, true, false, ◌||◌, Option, none, some, text_eq,
  includes, if◌then◌else◌, map,
}
use codearmory_blacksmith.Base.Order.{compare_text}
use codearmory_blacksmith.Json.{Value, Items, nil, cons, arr, get, coerce, sort_texts}
use codearmory_blacksmith.Delta.Canonical.{canonical, same_value}
use codearmory_blacksmith.Delta.Index.{Index, find, index_keys}
use Prim.Native.Nat.{Ordering}

pub data Kind : Type 0 where
  component connection boundary : Kind

pub data Status : Type 0 where
  added removed changed evidence_changed moved rerouted geometry_changed same : Status

-- A classification and the fields that belong to it.
pub record Group : Type 0 where
  pub classification : Text
  pub fields : List Text

abbrev component_fields : List Group
component_fields =
    record {
      classification = codes "semantic";
      fields = codes "type" ∷ codes "label" ∷ codes "sublabel" ∷ codes "tag" ∷ [];
    }
    ∷ record { classification = codes "evidence"; fields = codes "sources" ∷ [] }
    ∷ record {
      classification = codes "geometry";
      fields = codes "row" ∷ codes "col" ∷ codes "pos" ∷ codes "size" ∷ [];
    }
    ∷ []

abbrev connection_fields : List Group
connection_fields =
    record { classification = codes "topology"; fields = codes "from" ∷ codes "to" ∷ [] }
    ∷ record { classification = codes "semantic"; fields = codes "label" ∷ codes "variant" ∷ [] }
    ∷ record {
      classification = codes "geometry";
      fields =
          codes "fromSide"
          ∷ codes "toSide"
          ∷ codes "route"
          ∷ codes "via"
          ∷ codes "labelAt"
          ∷ codes "labelDx"
          ∷ codes "labelDy"
          ∷ codes "labelSegment"
          ∷ codes "width"
          ∷ [];
    }
    ∷ []

abbrev boundary_fields : List Group
boundary_fields =
    record { classification = codes "scope"; fields = codes "wraps" ∷ [] }
    ∷ record { classification = codes "geometry"; fields = codes "pad" ∷ [] }
    ∷ []

abbrev pub groups_for : Kind → List Group
groups_for component = component_fields
groups_for connection = connection_fields
groups_for boundary = boundary_fields

-- A stable sort by a text.
insert_by : (Value → Text) → Value → Items → Items
insert_by key v nil = cons v nil
insert_by key v (cons x rest) = elim (compare_text (key x) (key v)) [
  | Ordering.gt ↦ cons v (cons x rest)
  | _ ↦ cons x (insert_by key v rest)
]

unfoldable pub sort_by : (Value → Text) → Items → Items
unfolding insert_by
sort_by key nil = nil
sort_by key (cons x rest) = insert_by key x (sort_by key rest)

abbrev sorted_items : (Value → Text) → Value → Value
sorted_items key (arr xs) = arr (sort_by key xs)
sorted_items key v = v

unfoldable pub normalized_field : Value → Text → Value
unfolding get sort_by canonical coerce
normalized_field item name =
    if text_eq name (codes "sources")
    then sorted_items canonical (get item name)
    else if text_eq name (codes "wraps")
    then sorted_items coerce (get item name)
    else get item name

-- The fields in which the two items differ.
unfoldable pub differing : Value → Value → List Text → List Text
unfolding normalized_field same_value
differing before after [] = []
differing before after (name ∷ rest) =
    let others = differing before after rest in
    if same_value (normalized_field before name) (normalized_field after name)
    then others
    else name ∷ others

abbrev pub classified : Text → List Text → List Text
classified classification [] = []
classified classification (_ ∷ _) = classification ∷ []

unfoldable pub classifications : Value → Value → List Group → List Text
unfolding differing
classifications before after [] = []
classifications before after (g ∷ rest) =
    classified g.classification (differing before after g.fields)
    ++ classifications before after rest

unfoldable pub changed_fields : Value → Value → List Group → List Text
unfolding differing
changed_fields before after [] = []
changed_fields before after (g ∷ rest) =
    map (λ name. b'/' ∷ name) (differing before after g.fields) ++ changed_fields before after rest

abbrev pub geometry_status : Kind → Status
geometry_status connection = rerouted
geometry_status component = moved
geometry_status boundary = geometry_changed

unfoldable pub status_for : List Text → Kind → Status
unfolding includes
status_for found kind =
    if includes (codes "topology") found
      || includes (codes "semantic") found
      || includes (codes "scope") found
    then changed
    else if includes (codes "evidence") found
    then evidence_changed
    else if includes (codes "geometry") found
    then geometry_status kind
    else same

-- What is said of one id, apart from the labels that `describe` adds.
pub record Verdict : Type 0 where
  pub status : Status
  pub classifications : List Text
  pub changed_fields : List Text

abbrev pub identity_classification : Kind → Text
identity_classification connection = codes "topology"
identity_classification boundary = codes "scope"
identity_classification component = codes "semantic"

abbrev pub identity_verdict : Kind → Status → Verdict
identity_verdict kind status = record {
  status = status;
  classifications = identity_classification kind ∷ [];
  changed_fields = [];
}

abbrev pub unless_same : Verdict → Option Verdict
unless_same v = elim v.status [ same ↦ none | _ ↦ some v ]

unfoldable pub compare_items : Kind → Value → Value → Verdict
unfolding classifications changed_fields sort_texts status_for
compare_items kind before after =
    let found = sort_texts (classifications before after (groups_for kind)) in
    record {
      status = status_for found kind;
      classifications = found;
      changed_fields = sort_texts (changed_fields before after (groups_for kind));
    }

-- The body of the loop, for an id of either map.
abbrev pub verdict : Kind → Option Value → Option Value → Option Verdict
verdict kind none head = some (identity_verdict kind added)
verdict kind (some base) none = some (identity_verdict kind removed)
verdict kind (some base) (some head) = unless_same (compare_items kind base head)

-- `new Set(texts)`, sorted: each text once.
abbrev pub drop_repeats : Text → List Text → List Text
drop_repeats t [] = t ∷ []
drop_repeats t (x ∷ rest) = if text_eq t x then x ∷ rest else t ∷ x ∷ rest

unfoldable pub unique_sorted : List Text → List Text
unique_sorted [] = []
unique_sorted (t ∷ rest) = drop_repeats t (unique_sorted rest)

unfoldable pub all_ids : Index → Index → List Text
unfolding index_keys sort_texts unique_sorted
all_ids base head = unique_sorted (sort_texts (index_keys base ++ index_keys head))

-- A change, with what `describe` makes of the id and the two items.
pub record Change {ℓ} (D : Type ℓ) : Type ℓ where
  pub description : D
  pub verdict : Verdict

abbrev pub keep {ℓ} : {D : Type ℓ} → D → Option Verdict → List (Change D) → List (Change D)
keep d none rest = rest
keep d (some v) rest = record { description = d; verdict = v } ∷ rest

module _ {ℓ} {D : Type ℓ} (describe : Text → Option Value → Option Value → D) where
  unfoldable pub changes_of : Kind → Index → Index → List Text → List (Change D)
  unfolding find compare_items
  changes_of kind base head [] = []
  changes_of kind base head (id ∷ rest) =
      keep (describe id (find id base) (find id head)) (verdict kind (find id base) (find id head))
        (changes_of kind base head rest)

  unfoldable pub compare_entities : Kind → Index → Index → List (Change D)
  unfolding changes_of all_ids
  compare_entities kind base head = changes_of kind base head (all_ids base head)

abbrev pub same_status : Status → Status → Bool
same_status added added = true
same_status removed removed = true
same_status changed changed = true
same_status evidence_changed evidence_changed = true
same_status moved moved = true
same_status rerouted rerouted = true
same_status geometry_changed geometry_changed = true
same_status same same = true
same_status _ _ = false

-- One number of `summaryFor`: how many changes have the status.
unfoldable pub count_status {ℓ} : {D : Type ℓ} → Status → List (Change D) → ℕ
count_status status [] = 0
count_status status (c ∷ rest) =
    let others = count_status status rest in
    if same_status c.verdict.status status then suc others else others
