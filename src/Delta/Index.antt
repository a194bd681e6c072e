-- ===== src/Delta/Index.antt =====
-- The maps from stable ids to the items of a diagram: `stableIndex` and `boundaryIndex`.
use codearmory_blacksmith.Base.{
  Text, codes, List, [], ◌∷◌, ◌++◌, Bool, true, false, Option, none, some, text_eq, if◌then◌else◌,
}
use codearmory_blacksmith.Json.{Value, Items, nil, cons, arr, get, as_text, coerce}
use codearmory_blacksmith.Delta.{
  DeltaCode, duplicate_stable_id, boundary_key_ambiguous, Checked, failed, passed,
}

-- A `Map` whose keys are texts, in the order of insertion.
abbrev pub Index : Type 0
Index = List (Text × Value)

unfoldable pub find : Text → Index → Option Value
find k [] = none
find k ((j, v) ∷ rest) = if text_eq j k then some v else find k rest

abbrev pub has : Text → Index → Bool
has k index = elim (find k index) [ none ↦ false | some _ ↦ true ]

unfoldable pub index_keys : Index → List Text
index_keys [] = []
index_keys ((k, _) ∷ rest) = k ∷ index_keys rest

-- The items of a collection, `items || []`.
abbrev pub items_of : Value → Items
items_of (arr xs) = xs
items_of _ = nil

abbrev nonempty : Text → Option Text
nonempty [] = none
nonempty (c ∷ cs) = some (c ∷ cs)

-- `item?.id`, if it is truthy. (An id is a text, as the schema demands.)
unfoldable pub stable_id : Value → Option Text
unfolding get
stable_id item = elim (as_text (get item (codes "id"))) [ none ↦ none | some t ↦ nonempty t ]

unfoldable pub boundary_key : Value → Text
unfolding get coerce
boundary_key item = coerce (get item (codes "kind")) ++ 0x1f ∷ coerce (get item (codes "label"))

-- What the loop over the items finds: an item without a key, a key that is there already, the map.
pub record Scan : Type 0 where
  pub missing : Bool
  pub duplicate : Bool
  pub index : Index

abbrev pub step : Option Text → Value → Scan → Scan
step none item s = record s { missing = true }
step (some k) item s =
    if has k s.index
    then record s { duplicate = true }
    else record s { index = s.index ++ (k, item) ∷ [] }

unfoldable pub scan : (Value → Option Text) → Items → Scan → Scan
unfolding find
scan key nil s = s
scan key (cons item rest) s = scan key rest (step (key item) item s)

abbrev pub nothing : Scan
nothing = record { missing = false; duplicate = false; index = [] }

abbrev pub settle : DeltaCode → DeltaCode → Scan → Checked Index
settle missing duplicate s =
    if s.missing then failed missing else if s.duplicate then failed duplicate else passed s.index

unfoldable pub stable_index : Value → DeltaCode → Checked Index
unfolding scan stable_id
stable_index items missing =
    settle missing duplicate_stable_id (scan stable_id (items_of items) nothing)

unfoldable pub boundary_index : Value → Checked Index
unfolding scan boundary_key
boundary_index items =
    settle boundary_key_ambiguous boundary_key_ambiguous
      (scan (λ item. some (boundary_key item)) (items_of items) nothing)
