-- ===== src/Workflow/Target.antt =====
-- What the document of `migrateWorkflowDocument` in migrations/workflow-v2.mjs takes over from its
-- source.
use codearmory_blacksmith.Base.{
  ◌≡◌, refl, ap, ◌∙◌, Text, codes, Bool, true, false, text_eq, text_eq_iff, if◌then◌else◌, arith,
  elim_option,
}
use codearmory_blacksmith.Json.{
  Value, Fields, Number, arr, end, field, is_plain_object, fields_of, get, lookup,
}
use codearmory_blacksmith.Workflow.Pins.{
  Doubles, set_field, set_in, view_box, target_version, map_explicit_coordinates, map_edges,
  items_in,
}
use codearmory_blacksmith.Workflow.Answer.{
  Program, Compiled, ViewBox, has_version, meta_of, quality_profile, is_number, or_standard,
  view_box_value,
}
use codearmory_blacksmith.Workflow.Migrate.{set_view_box, refit}

lookup-set_field :
    (k j : Text) (x : Value) (fs : Fields)
    → lookup k (set_field j x fs) ≡ (if text_eq k j then x else lookup k fs)
unfolding lookup set_field
lookup-set_field k j x end = ground (arith, text_eq_iff j k, text_eq_iff k j)
lookup-set_field k j x (field i v fs) = ground (
  arith,
  lookup-set_field k j x fs,
  text_eq_iff j k,
  text_eq_iff k j,
  text_eq_iff i k,
  text_eq_iff i j,
)

get-set_in :
    (k j : Text) (x v : Value) → get (set_in j x v) k ≡ (if text_eq k j then x else get v k)
unfolding get set_in
get-set_in k j x v = lookup-set_field k j x (fields_of v)

-- Its meta data are those of the source, up to the view box.
abbrev pub HasMeta : Value → Value → Type 0
HasMeta w doc = (k : Text) → text_eq k view_box ≡ false → get (meta_of doc) k ≡ get (meta_of w) k

-- Its fields are those of the source, up to the version, the meta data and the edges.
abbrev pub HasFields : Value → Value → Type 0
HasFields w doc =
    (k : Text)
    → text_eq k (codes "schema_version") ≡ false
    → text_eq k (codes "meta") ≡ false
    → text_eq k (codes "edges") ≡ false
    → get doc k ≡ get w k

unless_same : {A : Type 0} {b : Bool} (x : A) {y : A} → b ≡ false → (if b then x else y) ≡ y
unless_same x h = rw h

object_set : (k : Text) (x v : Value) → is_plain_object (set_in k x v) ≡ true
unfolding set_in
object_set k x v = refl

-- What the migration takes over from the source before it compiles the result.
pub record IsTarget (w doc : Value) : Type 0 where
  pub version : has_version 2 doc ≡ true
  pub object : is_plain_object doc ≡ true
  pub meta : HasMeta w doc
  pub kept : HasFields w doc

pub profile_kept : (w doc : Value) → HasMeta w doc → quality_profile doc ≡ quality_profile w
unfolding text_eq
profile_kept w doc meta = ap or_standard (meta (codes "quality_profile") refl)

pub mapped-IsTarget :
    (d : Doubles) (f : Number → Number) (w : Value)
    → IsTarget w (map_explicit_coordinates d f (set_in (codes "schema_version") target_version w)).0
unfolding map_explicit_coordinates text_eq
mapped-IsTarget d f w =
    let v = set_in (codes "schema_version") target_version w in
    let edges = arr (map_edges d f 0 (items_in (get v (codes "edges")))).0 in
    let set = λ (k : Text) (x : Value). get-set_in k (codes "edges") x v in
    let first = λ (k : Text). get-set_in k (codes "schema_version") target_version w in
    record {
      version =
          ap (λ x. is_number x 2)
            (set (codes "schema_version") edges ∙ first (codes "schema_version"));
      object = object_set (codes "edges") edges v;
      meta = λ k new. ap (λ x. get x k) (set (codes "meta") edges ∙ first (codes "meta"));
      kept = λ k version meta other.
          set k edges ∙ unless_same edges other ∙ (first k ∙ unless_same target_version version);
    }

boxed-IsTarget :
    (p : Program) (w doc : Value) (box : ViewBox)
    → IsTarget w doc
    → IsTarget w (set_view_box p box doc)
unfolding text_eq
boxed-IsTarget p w doc box t =
    let list = view_box_value box in
    let grown = set_in view_box list (meta_of doc) in
    let set = λ (k : Text). get-set_in k (codes "meta") grown doc in
    record {
      version = ap (λ x. is_number x 2) (set (codes "schema_version")) ∙ t.version;
      object = object_set (codes "meta") grown doc;
      meta = λ k new.
          ap (λ x. get x k) (set (codes "meta"))
          ∙ (get-set_in k view_box list (meta_of doc) ∙ (unless_same list new ∙ t.meta k new));
      kept = λ k version meta other. set k ∙ (unless_same grown meta ∙ t.kept k version meta other);
    }

pub refit-IsTarget :
    (p : Program) (w doc : Value) (c : Compiled) → IsTarget w doc → IsTarget w (refit p doc c)
refit-IsTarget p w doc c t =
    elim_option (IsTarget w) _ doc (λ box. set_view_box p box doc) (λ _. t)
      (λ box _. boxed-IsTarget p w doc box t)
