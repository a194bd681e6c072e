-- ===== src/Workflow/Migrate.antt =====
-- migrations/workflow-v2.mjs: `migrateWorkflowDocument`.
use codearmory_blacksmith.Base.{
  Text, codes, List, [], ◌∷◌, true, not, ◌||◌, Option, none, some, ◌⊎◌, inl, inr, if◌then◌else◌,
}
use codearmory_blacksmith.Json.{
  Value, Number, str, arr, nil, cons, end, field, is_plain_object, get,
}
use codearmory_blacksmith.Json.Size.{natural_number}
use codearmory_blacksmith.Update.Semver.{◌>>=◌}
use codearmory_blacksmith.Render.Diagnostics.{Diagnostic}
use codearmory_blacksmith.Workflow.Pins.{
  Change, set_in, target_version, view_box, without_view_box, intrinsic_workflow, planning_workflow,
  create_mapped_workflow_candidate,
}
use codearmory_blacksmith.Workflow.Answer.{
  ViewBox, Compiled, Program, Migration, number, failure, first_version, migration_diagnostic,
  pair_of, or_else, evidence_view_box, required_view_box_from, expandable_view_box, has_version,
  meta_of, quality_profile, probe_document, diagnostics_of, view_box_value,
}

module _ (p : Program) where
  abbrev pub legacy_layout_probe : Value → Value → Option Compiled
  legacy_layout_probe w profile = probe_document w >>= λ probe. p.compile probe profile

  abbrev pub legacy_requirement_probe : Value → Value → Option Compiled
  legacy_requirement_probe w profile = p.compile (without_view_box w) profile

  abbrev pub schema_diagnostics : Value → Option (List Diagnostic)
  schema_diagnostics w = diagnostics_of (p.validate w)

  abbrev pub max_number : Number → Number → Number
  max_number a b = if p.doubles.less a b then b else a

  -- The current view box grown to the required one, if that is larger.
  abbrev pub expanded : ViewBox → ViewBox → Option ViewBox
  expanded (w, h) (rw', rh) =
      if p.doubles.less w (max_number w rw') || p.doubles.less h (max_number h rh)
      then some (max_number w rw', max_number h rh)
      else none

  abbrev pub set_view_box : ViewBox → Value → Value
  set_view_box box w = set_in (codes "meta") (set_in view_box (view_box_value box) (meta_of w)) w

  abbrev pub grown : Option ViewBox → Option ViewBox → Option ViewBox
  grown none required = none
  grown (some current) none = none
  grown (some current) (some required) = expanded current required

  -- The mapped document, with its view box expanded where only that was too small.
  abbrev pub refit : Value → Compiled → Value
  refit migrated compiled =
      elim (grown (pair_of (get (meta_of migrated) view_box)) (expandable_view_box compiled)) [
        | none ↦ migrated
        | some box ↦ set_view_box box migrated
      ]

  unfoldable pub fitted : Value → Value → Option Value
  unfolding get set_in evidence_view_box
  fitted migrated profile =
      p.compile migrated profile >>= λ compiled. some (refit migrated compiled)

  -- What the diagnostics of the schema make of the document; `none` is an error that is thrown on.
  abbrev pub conclude : Migration → Value → Option (List Diagnostic) → Option Migration
  conclude refusal document none = none
  conclude refusal document (some []) =
      some (record refusal { ok = true; document = some document })
  conclude refusal document (some (d ∷ ds)) = some (record refusal { new_schema = d ∷ ds })

  abbrev pub settled :
      Value
      → List Diagnostic
      → Option ViewBox
      → Compiled
      → List Change
      → Value
      → Compiled
      → Option Migration
  settled profile pre old planned changed document compiled =
      let refusal = record (failure first_version) {
        pre_existing = pre;
        changed_coordinates = changed;
        old_required = old;
        new_required = or_else (required_view_box_from compiled) (required_view_box_from planned);
      } in
      if not compiled.ok
      then some (record refusal { new_schema = compiled.diagnostics })
      else conclude refusal document (schema_diagnostics document)

  -- The end of the migration, from the mapped document on.
  unfoldable pub settle :
      Value → List Diagnostic → Option ViewBox → Compiled → List Change → Value → Option Migration
  unfolding evidence_view_box
  settle profile pre old planned changed document = p.compile document profile >>= λ compiled.
      settled profile pre old planned changed document compiled

  abbrev pub rank_mapping : Text → List Diagnostic
  rank_mapping message =
      migration_diagnostic (codes "rank-mapping")
        (codes "Could not construct a stable horizontal rank mapping.") end
        (field (codes "reason") (str message) end)
        (codes "report the workflow and compiler receipts to the Archify maintainers")
      ∷ []

  -- `catch (error)`, or what follows with the mapped document
  abbrev pub continue :
      Migration
      → (Value × List Change → Option Migration)
      → Text ⊎ (Value × List Change)
      → Option Migration
  continue refusal next (inl message) = some (record refusal { migration = rank_mapping message })
  continue refusal next (inr mapped) = next mapped

  -- From the plan of the columns on.
  unfoldable pub place :
      Value → Value → List Diagnostic → Option ViewBox → List Number → Compiled → Option Migration
  unfolding settle fitted create_mapped_workflow_candidate evidence_view_box
  place w profile pre old columns planned =
      let refusal = record (failure first_version) {
        pre_existing = pre;
        old_required = old;
        new_required = required_view_box_from planned;
      } in
      if not planned.ok
      then some (record refusal { new_schema = planned.diagnostics })
      else continue refusal
          (λ mapped. fitted mapped.0 profile >>= settle profile pre old planned mapped.1)
          (create_mapped_workflow_candidate p.doubles w columns planned.columns)

  abbrev pub or_planning : Value → Value → Compiled → Option Compiled
  or_planning w profile intrinsic =
      if intrinsic.ok then some intrinsic else p.compile (planning_workflow w) profile

  unfoldable pub planned_of : Value → Value → Option Compiled
  unfolding intrinsic_workflow planning_workflow
  planned_of w profile = p.compile (intrinsic_workflow w) profile >>= or_planning w profile

  -- `legacy.ok ? [] : legacy.diagnostics`
  abbrev pub before : Compiled → List Diagnostic
  before legacy = if legacy.ok then [] else legacy.diagnostics

  -- From a probe that compiled on.
  abbrev pub probed : Value → Value → Compiled → Compiled → Option Migration
  probed w profile legacy probe = do
    requirement ← legacy_requirement_probe w profile
    planned ← planned_of w profile
    place w profile (before legacy)
        (or_else (required_view_box_from requirement)
          (or_else (required_view_box_from probe) (required_view_box_from legacy)))
        probe.columns planned

  abbrev pub after_probe : Value → Value → Compiled → Compiled → Option Migration
  after_probe w profile legacy probe =
      if not probe.ok
      then some (record (failure first_version) {
        pre_existing = before legacy;
        migration = probe.diagnostics;
      })
      else probed w profile legacy probe

  -- A document of schema version 1.
  unfoldable pub migrate_first : Value → Value → Option Migration
  unfolding place planned_of probe_document without_view_box evidence_view_box
  migrate_first w profile = do
    legacy ← p.compile w profile
    probe ← legacy_layout_probe w profile
    after_probe w profile legacy probe

  abbrev pub kept_second : Value → Compiled → Option Migration
  kept_second w compiled =
      let required = required_view_box_from compiled in
      let refusal = record (failure target_version) {
        old_required = required;
        new_required = required;
      } in
      if not compiled.ok
      then some (record refusal { pre_existing = compiled.diagnostics })
      else some (record refusal { ok = true; document = some w })

  -- A document of schema version 2 stays as it is.
  unfoldable pub migrate_second : Value → Value → Option Migration
  unfolding evidence_view_box
  migrate_second w profile = p.compile w profile >>= kept_second w

  abbrev pub version_diagnostic : Value → Diagnostic
  version_diagnostic version =
      migration_diagnostic (codes "source-schema-version")
        (codes "Workflow migration to schema v2 requires a schema v1 or v2 source.")
        (field (codes "path") (str (codes "/schema_version")) end)
        (field (codes "actual") version
          (field (codes "expected") (arr (cons (number 1) (cons (number 2) nil))) end))
        (codes
          "use an unchanged schema v1 workflow or an already migrated schema v2 workflow as the source")

  abbrev pub source_diagnostic : Diagnostic
  source_diagnostic =
      migration_diagnostic (codes "source-document")
        (codes "Workflow migration requires one parsed JSON object.") end end
        (codes "provide one workflow schema v1 JSON document")

  -- A JSON object, with what the validator of the schema finds.
  abbrev pub migrate_object : Value → Option (List Diagnostic) → Option Migration
  migrate_object w none = none
  migrate_object w (some (d ∷ ds)) =
      some (record (failure (get w (codes "schema_version"))) { pre_existing = d ∷ ds })
  migrate_object w (some []) =
      if has_version 2 w
      then migrate_second w (quality_profile w)
      else if has_version 1 w
      then migrate_first w (quality_profile w)
      else some (record (failure (get w (codes "schema_version"))) {
        migration = version_diagnostic (get w (codes "schema_version")) ∷ [];
      })

  unfoldable pub migrate_workflow_document : Value → Option Migration
  unfolding migrate_first migrate_second get natural_number
  migrate_workflow_document w =
      if not (is_plain_object w)
      then some (record (failure first_version) { migration = source_diagnostic ∷ [] })
      else migrate_object w (schema_diagnostics w)
