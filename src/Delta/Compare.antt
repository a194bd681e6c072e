-- ===== src/Delta/Compare.antt =====
-- `compareArchitecture`: the checks on the two diagrams, and what it reports. The digests and sizes
-- that it copies from `evidence` are left out.
use codearmory_blacksmith.Base.Trim.{trim_start, trim_end}
use codearmory_blacksmith.Base.{
  ℕ, Text, codes, List, [], ◌∷◌, Bool, false, not, ◌&&◌, ◌||◌, Option, none, some, text_eq,
  if◌then◌else◌, any, ◌==◌,
}
use codearmory_blacksmith.Json.{
  Value, Fields, undefined, str, obj, end, field, get, coerce, is_text, is_truthy, text_or_empty,
  is_number_value,
}
use codearmory_blacksmith.Update.Contract.{is_hex}
use codearmory_blacksmith.Delta.{
  Checked, failed, passed, ◌>>=◌, schema_version_mismatch, type_mismatch, stable_id_required,
  relationship_id_required, no_shared_component_id, repository_mismatch,
}
use codearmory_blacksmith.Delta.Canonical.{same_value}
use codearmory_blacksmith.Delta.Index.{Index, has, index_keys, stable_index, boundary_index}
use codearmory_blacksmith.Delta.Entities.{component, connection, boundary, Change, compare_entities}

abbrev is_letter : ℕ → ℕ → ℕ → Bool
is_letter small capital c = c == small || c == capital

-- /\.git\/?$/i at the start of the text
abbrev is_git_suffix : Text → Bool
is_git_suffix (d ∷ g ∷ i ∷ t ∷ []) =
    d == b'.' && is_letter b'g' b'G' g && is_letter b'i' b'I' i && is_letter b't' b'T' t
is_git_suffix (d ∷ g ∷ i ∷ t ∷ s ∷ []) =
    d == b'.'
    && is_letter b'g' b'G' g
    && is_letter b'i' b'I' i
    && is_letter b't' b'T' t
    && s == b'/'
is_git_suffix _ = false

drop_git_suffix : Text → Text
drop_git_suffix [] = []
drop_git_suffix (c ∷ cs) =
    let rest = c ∷ drop_git_suffix cs in if is_git_suffix (c ∷ cs) then [] else rest

-- .replace(/\/$/, '')
drop_last_slash : Text → Text
drop_last_slash [] = []
drop_last_slash (c ∷ []) = if c == b'/' then [] else c ∷ []
drop_last_slash (c ∷ d ∷ cs) = c ∷ drop_last_slash (d ∷ cs)

pub record Repository : Type 0 where
  pub url : Text
  pub revision : Text

abbrev pub repository_value : Option Repository → Value
repository_value none = undefined
repository_value (some r) =
    obj (field (codes "url") (str r.url) (field (codes "revision") (str r.revision) end))

abbrev copy_fields : Value → List Text → Fields
copy_fields source [] = end
copy_fields source (name ∷ rest) = field name (get source name) (copy_fields source rest)

-- The fields of `presentationChanged`
unfoldable pub presentation : Value → Value
unfolding get
presentation diagram = obj (
    field (codes "meta")
      (obj (
        copy_fields (get diagram (codes "meta")) (
          codes "title"
          ∷ codes "subtitle"
          ∷ codes "animation"
          ∷ codes "visual_preset"
          ∷ codes "quality_profile"
          ∷ codes "engineering_profile"
          ∷ codes "legend"
          ∷ codes "views"
          ∷ codes "viewBox"
          ∷ [])))
      (copy_fields diagram (codes "layout" ∷ codes "cards" ∷ [])))

unfoldable pub presentation_changed : Value → Value → Bool
unfolding presentation same_value
presentation_changed base head = not (same_value (presentation base) (presentation head))

unfoldable pub require_comparable_shape : Value → Checked Value
unfolding get
require_comparable_shape diagram =
    if not (is_number_value (get diagram (codes "schema_version")) 1)
    then failed schema_version_mismatch
    else if not (is_text (get diagram (codes "diagram_type")) (codes "architecture"))
    then failed type_mismatch
    else passed diagram

abbrev pub require_shared : Index → Index → Checked Index
require_shared base head =
    if any (λ id. has id head) (index_keys base) then passed base else failed no_shared_component_id

abbrev pub require_same_repository :
    Option Repository → Option Repository → Checked (Option Repository)
require_same_repository (some b) (some h) =
    if text_eq b.url h.url then passed (some b) else failed repository_mismatch
require_same_repository b h = passed b

pub data ProofLevel : Type 0 where
  revision_pinned authored : ProofLevel

abbrev proof_level : Option Repository → Option Repository → Bool → Bool → ProofLevel
proof_level (some b) (some h) base_verified head_verified =
    if base_verified && head_verified && is_hex 40 b.revision && is_hex 40 h.revision
    then revision_pinned
    else authored
proof_level _ _ base_verified head_verified = authored

pub record ComponentChange : Type 0 where
  pub id : Text
  pub base_label : Value
  pub head_label : Value

pub record Ends : Type 0 where
  pub from : Value
  pub to : Value
  pub label : Value

pub record ConnectionChange : Type 0 where
  pub id : Text
  pub base : Option Ends
  pub head : Option Ends

pub record BoundaryChange : Type 0 where
  pub kind : Value
  pub label : Value

abbrev field_of : Option Value → Text → Value
field_of none name = undefined
field_of (some v) name = get v name

abbrev pub describe_component : Text → Option Value → Option Value → ComponentChange
describe_component id before after = record {
  id = id;
  base_label = field_of before (codes "label");
  head_label = field_of after (codes "label");
}

abbrev ends_of : Option Value → Option Ends
ends_of none = none
ends_of (some v) = some (record {
  from = get v (codes "from");
  to = get v (codes "to");
  label = if is_truthy (get v (codes "label")) then get v (codes "label") else str [];
})

abbrev pub describe_connection : Text → Option Value → Option Value → ConnectionChange
describe_connection id before after = record {
  id = id;
  base = ends_of before;
  head = ends_of after;
}

abbrev or_before : Option Value → Option Value → Option Value
or_before before (some v) = some v
or_before before none = before

abbrev pub describe_boundary : Text → Option Value → Option Value → BoundaryChange
describe_boundary key before after = record {
  kind = field_of (or_before before after) (codes "kind");
  label = field_of (or_before before after) (codes "label");
}

pub record Comparison : Type 0 where
  pub proof_level : ProofLevel
  pub components : List (Change ComponentChange)
  pub connections : List (Change ConnectionChange)
  pub boundaries : List (Change BoundaryChange)
  pub presentation_changed : Bool
  pub provenance_changed : Bool

-- `lower` is `toLowerCase`.
module _ (lower : Text → Text) where
  unfoldable pub normalize_repository : Value → Option Repository
  unfolding get coerce trim_start trim_end drop_git_suffix drop_last_slash
  normalize_repository v =
      if not (is_truthy v)
      then none
      else some (record {
        url = lower (
            drop_last_slash
              (drop_git_suffix (trim_end (trim_start (text_or_empty (get v (codes "url")))))));
        revision = lower (text_or_empty (get v (codes "revision")));
      })

  abbrev pub repository_of : Value → Option Repository
  repository_of diagram =
      normalize_repository (get (get diagram (codes "meta")) (codes "repository"))

  unfoldable pub compare_architecture : Value → Value → Bool → Bool → Checked Comparison
  unfolding get require_comparable_shape stable_index boundary_index index_keys compare_entities
      normalize_repository presentation_changed same_value
  compare_architecture base head base_verified head_verified = do
    _ ← require_comparable_shape base
    _ ← require_comparable_shape head
    base_components ← stable_index (get base (codes "components")) stable_id_required
    head_components ← stable_index (get head (codes "components")) stable_id_required
    _ ← require_shared base_components head_components
    base_connections ← stable_index (get base (codes "connections")) relationship_id_required
    head_connections ← stable_index (get head (codes "connections")) relationship_id_required
    base_boundaries ← boundary_index (get base (codes "boundaries"))
    head_boundaries ← boundary_index (get head (codes "boundaries"))
    _ ← require_same_repository (repository_of base) (repository_of head)
    passed (record {
      proof_level =
          proof_level (repository_of base) (repository_of head) base_verified head_verified;
      components = compare_entities describe_component component base_components head_components;
      connections =
          compare_entities describe_connection connection base_connections head_connections;
      boundaries = compare_entities describe_boundary boundary base_boundaries head_boundaries;
      presentation_changed = presentation_changed base head;
      provenance_changed = not (
          same_value (repository_value (repository_of base))
            (repository_value (repository_of head)));
    })
