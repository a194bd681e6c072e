-- ===== src/Render/Identity.antt =====
-- `validateRelationshipIds` and `validateGuidedViews` of renderers/shared/cli.mjs. A diagram has the
-- types that its schema gives it, which is checked before.
use codearmory_blacksmith.Base.{
  ℕ, suc, Text, codes, List, [], ◌∷◌, ◌++◌, Bool, true, false, not, Option, none, some, text_eq,
  includes, if◌then◌else◌,
}
use codearmory_blacksmith.Json.{Fields, str, end, field}
use codearmory_blacksmith.Json.Size.{natural_number}
use codearmory_blacksmith.Delta.Canonical.{quote}
use codearmory_blacksmith.Render.Diagnostics.{Recorder, Thrown, throw_diagnostic_problems}

-- `semanticCollection` and `relationshipCollection` by the type of the diagram
abbrev pub collection_in : List (Text × Text) → Text → Option Text
unfolding text_eq
collection_in [] t = none
collection_in (p ∷ rest) t =
    let later = collection_in rest t in if text_eq p.0 t then some p.1 else later

abbrev pub semantic_collections : List (Text × Text)
semantic_collections =
    (codes "architecture", codes "components")
    ∷ (codes "workflow", codes "nodes")
    ∷ (codes "sequence", codes "participants")
    ∷ (codes "dataflow", codes "nodes")
    ∷ (codes "lifecycle", codes "states")
    ∷ []

abbrev pub relationship_collections : List (Text × Text)
relationship_collections =
    (codes "architecture", codes "connections")
    ∷ (codes "workflow", codes "edges")
    ∷ (codes "sequence", codes "messages")
    ∷ (codes "dataflow", codes "flows")
    ∷ (codes "lifecycle", codes "transitions")
    ∷ []

abbrev pub View : Type 0
View = Text × List Text

-- The ids of the items of each collection, an absent one being `none`, and the guided views.
pub record Drawing : Type 0 where
  pub items : Text → List (Option Text)
  pub views : List View

abbrev index_text : ℕ → Text
unfolding natural_number
index_text i = (natural_number i).text

-- The filled ids of the relationships, with their places.
abbrev pub filled_ids : ℕ → List (Option Text) → List (ℕ × Text)
filled_ids i [] = []
filled_ids i (none ∷ rest) = filled_ids (suc i) rest
filled_ids i (some [] ∷ rest) = filled_ids (suc i) rest
filled_ids i (some (c ∷ cs) ∷ rest) = (i, c ∷ cs) ∷ filled_ids (suc i) rest

unfoldable pub duplicate_problems : (ℕ → Text → Text) → List Text → List (ℕ × Text) → List Text
unfolding includes
duplicate_problems message seen [] = []
duplicate_problems message seen (p ∷ rest) =
    let later = duplicate_problems message (p.1 ∷ seen) rest in
    if includes p.1 seen then message p.0 p.1 ∷ later else later

abbrev pub relationship_message : Text → ℕ → Text → Text
unfolding quote natural_number
relationship_message collection i id =
    codes "/"
    ++ (collection
        ++ (codes "/" ++ (index_text i ++ (codes "/id duplicates relationship id " ++ quote id))))

abbrev pub collection_problems : Drawing → Option Text → List Text
unfolding duplicate_problems quote natural_number
collection_problems d none = []
collection_problems d (some collection) =
    duplicate_problems (relationship_message collection) [] (filled_ids 0 (d.items collection))

unfoldable pub relationship_problems : Text → Drawing → List Text
unfolding duplicate_problems quote natural_number text_eq
relationship_problems type d = collection_problems d (collection_in relationship_collections type)

abbrev pub view_message : ℕ → Text → Text
unfolding quote natural_number
view_message i id =
    codes "/meta/views/" ++ (index_text i ++ (codes "/id duplicates view id " ++ quote id))

abbrev pub focus_message : ℕ → Text → ℕ → Text → Text
unfolding quote natural_number
focus_message i what k id =
    codes "/meta/views/"
    ++ (index_text i ++ (codes "/focus/" ++ (index_text k ++ (what ++ quote id))))

-- `if (test) problems.push(message)`
abbrev pub when : Bool → Text → List Text
when true message = message ∷ []
when false message = []

unfoldable pub focus_problems : List Text → ℕ → List Text → ℕ → List Text → List Text
unfolding includes quote natural_number
focus_problems known i seen k [] = []
focus_problems known i seen k (id ∷ rest) =
    when (includes id seen) (focus_message i (codes " duplicates semantic id ") k id)
    ++ (when (not (includes id known))
          (focus_message i (codes " references unknown semantic id ") k id)
        ++ focus_problems known i (id ∷ seen) (suc k) rest)

unfoldable pub view_problems : List Text → ℕ → List Text → List View → List Text
unfolding includes focus_problems quote natural_number
view_problems known i seen [] = []
view_problems known i seen (v ∷ rest) =
    when (includes v.0 seen) (view_message i v.0)
    ++ (focus_problems known i [] 0 v.1 ++ view_problems known (suc i) (v.0 ∷ seen) rest)

abbrev pub present_ids : List (Option Text) → List Text
present_ids [] = []
present_ids (none ∷ rest) = present_ids rest
present_ids (some id ∷ rest) = id ∷ present_ids rest

unfoldable pub semantic_ids : Text → Drawing → List Text
unfolding text_eq
semantic_ids type d = elim (collection_in semantic_collections type) [
  | none ↦ []
  | some collection ↦ present_ids (d.items collection)
]

unfoldable pub unless_problems :
    Text → Text → Fields → List Text → Recorder → Option Thrown × Recorder
unfolding throw_diagnostic_problems
unless_problems prefix code subject [] r = (none, r)
unless_problems prefix code subject (p ∷ ps) r =
    let thrown = throw_diagnostic_problems prefix (p ∷ ps) code subject r in
    (some thrown.0, thrown.1)

abbrev pub subject_for : Text → Text → Fields
subject_for type collection =
    field (codes "diagramType") (str type) (field (codes "collection") (str collection) end)

abbrev pub collection_or_empty : Option Text → Text
collection_or_empty none = []
collection_or_empty (some t) = t

-- Each returns nothing, or throws.
unfoldable pub validate_relationship_ids : Text → Drawing → Recorder → Option Thrown × Recorder
unfolding relationship_problems unless_problems text_eq
validate_relationship_ids type d r =
    unless_problems (codes "Relationship identity validation failed")
      (codes "relationship/duplicate-id")
      (subject_for type (collection_or_empty (collection_in relationship_collections type)))
      (relationship_problems type d) r

unfoldable pub validate_guided_views : Text → Drawing → Recorder → Option Thrown × Recorder
unfolding view_problems semantic_ids unless_problems
validate_guided_views type d r =
    unless_problems (codes "Guided view validation failed") (codes "guided-view/invalid")
      (subject_for type (codes "meta.views")) (view_problems (semantic_ids type d) 0 [] d.views) r
