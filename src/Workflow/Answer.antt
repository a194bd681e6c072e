-- ===== src/Workflow/Answer.antt =====
-- migrations/workflow-v2.mjs: what the migration reads of its input and of the answers of the compiler
-- and of the validator of the schema, which are an interface. A pair of numbers stands for a required
-- view box, and `none` for an error that is thrown on.
use codearmory_blacksmith.Base.{
  ℕ, Text, codes, List, [], ◌∷◌, ◌++◌, Bool, true, false, not, ◌||◌, Option, none, some, text_eq,
  if◌then◌else◌, ◌==◌, all,
}
use codearmory_blacksmith.Json.{
  Value, Items, Fields, Number, undefined, null, num, str, arr, obj, nil, cons, end, field, get,
  lookup, is_truthy,
}
use codearmory_blacksmith.Json.Size.{natural_number}
use codearmory_blacksmith.Update.Semver.{◌>>=◌}
use codearmory_blacksmith.Render.Diagnostics.{Diagnostic, error}
use codearmory_blacksmith.Workflow.Pins.{Doubles, Change}

abbrev pub ViewBox : Type 0
ViewBox = Number × Number

-- What `compileWorkflow` returns, with the parts of the receipt that the migration reads.
pub record Compiled : Type 0 where
  pub ok : Bool
  pub diagnostics : List Diagnostic
  pub required_view_box : Option ViewBox
  pub columns : List Number

-- How `validateSchema` ends: an error without diagnostics is thrown on.
pub data Validated : Type 0 where
  passed : Validated
  refused : List Diagnostic → Validated
  thrown : Validated

pub record Program : Type 0 where
  pub doubles : Doubles
  pub compile : Value → Value → Option Compiled
  pub validate : Value → Validated

pub record Migration : Type 0 where
  pub ok : Bool
  pub document : Option Value
  pub from_schema_version : Value
  pub pre_existing : List Diagnostic
  pub migration : List Diagnostic
  pub new_schema : List Diagnostic
  pub changed_coordinates : List Change
  pub old_required : Option ViewBox
  pub new_required : Option ViewBox

abbrev pub number : ℕ → Value
number n = num (natural_number n)

abbrev pub failure : Value → Migration
failure version = record {
  ok = false;
  document = none;
  from_schema_version = version;
  pre_existing = [];
  migration = [];
  new_schema = [];
  changed_coordinates = [];
  old_required = none;
  new_required = none;
}

abbrev pub first_version : Value
first_version = number 1

abbrev pub migration_diagnostic : Text → Text → Fields → Fields → Text → Diagnostic
migration_diagnostic code message subject evidence fix = record {
  code = codes "migration/" ++ code;
  severity = error;
  message = message;
  subject = subject;
  evidence = evidence;
  supported_fixes = fix ∷ [];
  suppresses = none;
}

-- `result?.receipt?.requiredViewBox`, or the first one in the evidence of a diagnostic
abbrev pub pair_of : Value → Option ViewBox
pair_of (arr (cons (num a) (cons (num b) nil))) = some (a, b)
pair_of _ = none

abbrev pub or_else : {A : Type 0} → Option A → Option A → Option A
or_else none o = o
or_else (some a) o = some a

unfoldable pub evidence_view_box : List Diagnostic → Option ViewBox
unfolding lookup
evidence_view_box [] = none
evidence_view_box (d ∷ ds) =
    or_else (pair_of (lookup (codes "requiredViewBox") d.evidence)) (evidence_view_box ds)

abbrev pub required_view_box_from : Compiled → Option ViewBox
required_view_box_from c = or_else c.required_view_box (evidence_view_box c.diagnostics)

abbrev is_nil : {A : Type 0} → List A → Bool
is_nil [] = true
is_nil (x ∷ xs) = false

abbrev pub expandable_view_box : Compiled → Option ViewBox
expandable_view_box c =
    if c.ok
      || is_nil c.diagnostics
      || not (
          all (λ (d : Diagnostic). text_eq d.code (codes "workflow/viewbox-capacity"))
            c.diagnostics)
    then none
    else required_view_box_from c

-- `schema_version === n`
abbrev natural_is : Option ℕ → ℕ → Bool
natural_is none n = false
natural_is (some m) n = m == n

abbrev pub is_number : Value → ℕ → Bool
is_number (num x) n = natural_is x.natural n
is_number _ n = false

abbrev pub has_version : ℕ → Value → Bool
has_version n w = is_number (get w (codes "schema_version")) n

abbrev pub meta_of : Value → Value
meta_of w = get w (codes "meta")

abbrev pub or_standard : Value → Value
or_standard v = if is_truthy v then v else str (codes "standard")

-- `inputWorkflow.meta?.quality_profile || 'standard'`
abbrev pub quality_profile : Value → Value
quality_profile w = or_standard (get (meta_of w) (codes "quality_profile"))

abbrev pub first_item : Items → Value
first_item nil = undefined
first_item (cons v rest) = v

abbrev locale_field : Value → Fields → Fields
locale_field v rest = if is_truthy v then field (codes "locale") v rest else rest

-- `value.key`, which throws on `undefined` and `null`
unfoldable pub read : Value → Text → Option Value
unfolding get
read undefined key = none
read null key = none
read v key = some (get v key)

-- `lanes[0]`
abbrev first_lane : Value → Option Value
first_lane (arr xs) = some (first_item xs)
first_lane (str []) = some undefined
first_lane (str (c ∷ cs)) = some (str (c ∷ []))
first_lane v = read v (codes "0")

abbrev probe_meta : Value → Value → Value
probe_meta title locale = obj (
    field (codes "title") title (
      locale_field locale
        (field (codes "legend") (obj (field (codes "mode") (str (codes "hidden")) end)) end)))

abbrev probe_node : Value → Value
probe_node lane = obj (
    field (codes "id") (str (codes "migration_probe")) (
      field (codes "lane") lane (
        field (codes "col") (number 0) (
          field (codes "type") (str (codes "backend"))
            (field (codes "label") (str (codes "Probe")) end)))))

unfoldable pub probe_document : Value → Option Value
unfolding get read
probe_document w = do
  title ← read (meta_of w) (codes "title")
  lane ← first_lane (get w (codes "lanes"))
  id ← read lane (codes "id")
  some (
      obj (
        field (codes "schema_version") (number 1) (
          field (codes "diagram_type") (str (codes "workflow")) (
            field (codes "meta") (probe_meta title (get (meta_of w) (codes "locale"))) (
              field (codes "lanes") (get w (codes "lanes")) (
                field (codes "nodes") (arr (cons (probe_node id) nil))
                  (field (codes "edges") (arr nil) end)))))))

abbrev pub diagnostics_of : Validated → Option (List Diagnostic)
diagnostics_of passed = some []
diagnostics_of (refused ds) = some ds
diagnostics_of thrown = none

abbrev pub view_box_value : ViewBox → Value
view_box_value (a, b) = arr (cons (num a) (cons (num b) nil))
