-- ===== src/Delta/Examples.antt =====
-- The properties of the comparison at concrete diagrams.
use Prim.Native.String.{String}
use mathlib.Core.Option.{map}
use codearmory_blacksmith.Base.{◌≡◌, refl, codes, [], ◌∷◌, false, none, some, if◌then◌else◌}
use codearmory_blacksmith.Base.Order.{lexicographic}
use codearmory_blacksmith.Json.{Value, num, str, arr, obj, nil, cons, end, field}
use codearmory_blacksmith.Json.Size.{natural_number}
use codearmory_blacksmith.Delta.Index.{Index, find}
use codearmory_blacksmith.Delta.Entities.{component, added, removed, verdict, compare_entities}
use codearmory_blacksmith.Delta.Verdicts.{
  status_of, verdict_for, verdict_for-compare_entities, compare_entities-exchange, exchange, known,
  name_only,
}
use codearmory_blacksmith.Delta.Compare.{Comparison, authored, compare_architecture}
use codearmory_blacksmith.Delta.Identity.{IsUnchanged, compare_architecture-IsUnchanged}

abbrev item : String → String → Value
item id label =
    obj (field (codes "id") (str (codes id)) (field (codes "label") (str (codes label)) end))

abbrev base_items : Index
base_items = (codes "api", item "api" "API") ∷ (codes "db", item "db" "Store") ∷ []

abbrev head_items : Index
head_items = (codes "api", item "api" "Gateway") ∷ (codes "cache", item "cache" "Cache") ∷ []

verdict_example :
    verdict_for (codes "api") (compare_entities name_only component base_items head_items) ≡ (
      if known (codes "api") base_items head_items
      then verdict component (find (codes "api") base_items) (find (codes "api") head_items)
      else none)
verdict_example = verdict_for-compare_entities component base_items head_items (codes "api")

exchange_example :
    (verdict_for (codes "db") (compare_entities name_only component head_items base_items)
      ≡ map exchange
          (verdict_for (codes "db") (compare_entities name_only component base_items head_items)))
    × (((v : Value)
          → find (codes "db") base_items ≡ none
          → find (codes "db") head_items ≡ some v
          → status_of (
              verdict_for (codes "db") (compare_entities name_only component base_items head_items))
            ≡ some added)
        × ((v : Value)
            → find (codes "db") base_items ≡ some v
            → find (codes "db") head_items ≡ none
            → status_of (
                verdict_for
                  (codes "db")
                  (compare_entities name_only component base_items head_items))
              ≡ some removed))
exchange_example = compare_entities-exchange component base_items head_items (codes "db")

abbrev components : Value
components = arr (cons (item "api" "API") (cons (item "api" "Again") nil))

abbrev diagram : Value
diagram = obj (
    field (codes "schema_version") (num (natural_number 1)) (
      field (codes "diagram_type") (str (codes "architecture"))
        (field (codes "components") (arr (cons (item "api" "API") nil)) end)))

abbrev no_changes_found : Comparison
no_changes_found = record {
  proof_level = authored;
  components = [];
  connections = [];
  boundaries = [];
  presentation_changed = false;
  provenance_changed = false;
}

compare_architecture_example : IsUnchanged no_changes_found
unfolding compare_architecture natural_number lexicographic
compare_architecture_example =
    compare_architecture-IsUnchanged (λ t. t) diagram false false no_changes_found refl
