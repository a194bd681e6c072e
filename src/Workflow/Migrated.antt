-- ===== src/Workflow/Migrated.antt =====
-- What `migrateWorkflowDocument` of migrations/workflow-v2.mjs answers.
use codearmory_blacksmith.Base.{
  ◌≡◌, ◌≢◌, ◌⊎◌, inl, inr, refl, sym, ap, ◌∙◌, Text, List, [], ◌∷◌, ◌++◌, true, false, not, Option,
  none, some, arith, if_elim, append-nil,
}
use codearmory_blacksmith.Json.{Value, Number, is_plain_object}
use codearmory_blacksmith.Render.Diagnostics.{Diagnostic}
use codearmory_blacksmith.Update.Semver.{◌>>=◌}
use codearmory_blacksmith.Update.Contract.Trusted.{Option-injective}
use codearmory_blacksmith.Workflow.Pins.{
  Change, create_mapped_workflow_candidate, create_horizontal_rank_mapper, mapped_by,
  intrinsic_workflow, planning_workflow, without_view_box,
}
use codearmory_blacksmith.Workflow.Answer.{
  Program, Migration, Compiled, ViewBox, passed, refused, thrown, failure, has_version,
  quality_profile, diagnostics_of, Validated, first_version, probe_document, required_view_box_from,
}
use codearmory_blacksmith.Workflow.Migrate.{
  schema_diagnostics, refit, fitted, settled, settle, place, or_planning, planned_of, continue,
  after_probe, migrate_first, kept_second, migrate_second, migrate_workflow_document, conclude,
  migrate_object,
}
use codearmory_blacksmith.Workflow.Target.{
  HasMeta, HasFields, IsTarget, profile_kept, mapped-IsTarget, refit-IsTarget,
}

module _ (p : Program) where
  -- A document of schema version 2 that compiles, under the profile of the source, and validates, and
  -- that has taken over what the migration does not change.
  pub record IsMigrated (w doc : Value) : Type 0 where
    pub version : has_version 2 doc ≡ true
    pub compiled : Compiled
    pub compiles : p.compile doc (quality_profile w) ≡ some compiled
    pub fits : compiled.ok ≡ true
    pub valid : schema_diagnostics p doc ≡ some []
    pub object : is_plain_object doc ≡ true
    pub meta : HasMeta w doc
    pub kept : HasFields w doc

  abbrev pub HasDocument : Value → Migration → Type 0
  HasDocument w m = (m.ok ≡ true) × ((doc : Value) × (m.document ≡ some doc) × IsMigrated w doc)

  -- The compiler refuses a document without a diagnostic.
  pub record IsSilent : Type 0 where
    pub document : Value
    pub profile : Value
    pub compiled : Compiled
    pub compiles : p.compile document profile ≡ some compiled
    pub refuses : compiled.ok ≡ false
    pub unexplained : compiled.diagnostics ≡ []

  abbrev pub HasReason : Migration → Type 0
  HasReason m =
      (m.ok ≡ false)
      × ((m.document ≡ none) × ((m.pre_existing ++ (m.migration ++ m.new_schema) ≢ []) ⊎ IsSilent))

  -- The compiler or the validator throws, or the source has no title or no lane to probe with.
  abbrev pub Throws : Value → Type 0
  Throws w =
      ((v q : Value) × (p.compile v q ≡ none))
      ⊎ (((v : Value) × (p.validate v ≡ thrown)) ⊎ (probe_document w ≡ none))

  abbrev pub Returns : Value → Option Migration → Type 0
  Returns w none = Throws w
  Returns w (some m) = HasDocument w m ⊎ HasReason m

cons_not_nil : {A : Type 0} {x : A} {xs : List A} → x ∷ xs ≢ []
cons_not_nil h = cc

-- What follows an answer, by that answer.
bind-Returns :
    {A : Type 0} (p : Program) (w : Value) (o : Option A) (f : A → Option Migration)
    → (o ≡ none → Throws p w)
    → ((a : A) → o ≡ some a → Returns p w (f a))
    → Returns p w (o >>= f)
bind-Returns p w none f h k = h refl
bind-Returns p w (some a) f h k = k a refl

module _ (p : Program) (w : Value) where
  -- The diagnostics of a refused document are among those reported, if it has any.
  reason :
      (v q : Value) (c : Compiled) (ds : List Diagnostic)
      → p.compile v q ≡ some c
      → c.ok ≡ false
      → (ds ≡ [] → c.diagnostics ≡ [])
      → (ds ≢ []) ⊎ IsSilent p
  reason v q c [] e refuses k = inr (record {
    document = v;
    profile = q;
    compiled = c;
    compiles = e;
    refuses = refuses;
    unexplained = k refl;
  })
  reason v q c (d ∷ ds) e refuses k = inl cons_not_nil

  compiled-Returns :
      (v q : Value) (f : Compiled → Option Migration)
      → ((c : Compiled) → p.compile v q ≡ some c → Returns p w (f c))
      → Returns p w (p.compile v q >>= f)
  compiled-Returns v q f k = bind-Returns p w (p.compile v q) f (λ e. inl (v, q, e)) k

  target-IsMigrated :
      (doc : Value) (c : Compiled)
      → IsTarget w doc
      → p.compile doc (quality_profile w) ≡ some c
      → c.ok ≡ true
      → schema_diagnostics p doc ≡ some []
      → IsMigrated p w doc
  target-IsMigrated doc c t e fits valid = record {
    version = t.version;
    compiled = c;
    compiles = e;
    fits = fits;
    valid = valid;
    object = t.object;
    meta = t.meta;
    kept = t.kept;
  }

  -- What the validator of the schema makes of a document that compiles.
  conclude-Returns :
      (pre : List Diagnostic) (old new : Option ViewBox) (changed : List Change) (doc : Value)
      → (schema_diagnostics p doc ≡ some [] → IsMigrated p w doc)
      → (a : Validated) → p.validate doc ≡ a
      → Returns p w (
          conclude p
            (record (failure first_version) {
              pre_existing = pre;
              changed_coordinates = changed;
              old_required = old;
              new_required = new;
            })
            doc
            (diagnostics_of a))
  conclude-Returns pre old new changed doc good thrown e = inr (inl (doc, e))
  conclude-Returns pre old new changed doc good (refused (d ∷ ds)) e =
      inr (refl, (refl, inl (λ h. cons_not_nil (append-nil pre _ h).1)))
  conclude-Returns pre old new changed doc good (refused []) e =
      inl (refl, (doc, refl, good (ap diagnostics_of e)))
  conclude-Returns pre old new changed doc good passed e =
      inl (refl, (doc, refl, good (ap diagnostics_of e)))

  settled-Returns :
      (pre : List Diagnostic) (old : Option ViewBox) (planned : Compiled) (changed : List Change)
      (doc : Value) (c : Compiled)
      → IsTarget w doc
      → p.compile doc (quality_profile w) ≡ some c
      → Returns p w (settled p (quality_profile w) pre old planned changed doc c)
  settled-Returns pre old planned changed doc c t e =
      if_elim (Returns p w) (not c.ok) _ _
        (λ h. inr (
          refl,
          (refl, reason doc (quality_profile w) c _ e (ground arith) (λ k. (append-nil pre _ k).1)),
        ))
        (λ h.
          conclude-Returns pre old _ changed doc (target-IsMigrated doc c t e (ground arith))
            (p.validate doc) refl)

  settle-Returns :
      (pre : List Diagnostic) (old : Option ViewBox) (planned : Compiled) (changed : List Change)
      (doc : Value)
      → IsTarget w doc
      → Returns p w (settle p (quality_profile w) pre old planned changed doc)
  unfolding settle
  settle-Returns pre old planned changed doc t =
      compiled-Returns doc (quality_profile w)
        (settled p (quality_profile w) pre old planned changed doc)
        (λ c e. settled-Returns pre old planned changed doc c t e)

  -- The mapped document, refitted, is settled.
  fitted-Returns :
      (pre : List Diagnostic) (old : Option ViewBox) (planned : Compiled) (changed : List Change)
      (doc : Value)
      → IsTarget w doc
      → Returns p w (
          fitted p doc (quality_profile w) >>= settle p (quality_profile w) pre old planned changed)
  unfolding fitted
  fitted-Returns pre old planned changed doc t = by_answer (p.compile doc (quality_profile w)) refl
    where
      by_answer :
          (o : Option Compiled)
          → p.compile doc (quality_profile w) ≡ o
          → Returns p w (
              (o >>= λ c. some (refit p doc c))
              >>= settle p (quality_profile w) pre old planned changed)
      by_answer none e = inl (doc, quality_profile w, e)
      by_answer (some c) e =
          settle-Returns pre old planned changed (refit p doc c) (refit-IsTarget p w doc c t)

  place-Returns :
      (pre : List Diagnostic) (old : Option ViewBox) (columns : List Number) (v : Value)
      (planned : Compiled)
      → p.compile v (quality_profile w) ≡ some planned
      → Returns p w (place p w (quality_profile w) pre old columns planned)
  unfolding place create_mapped_workflow_candidate fitted settle
  place-Returns pre old columns v planned e =
      if_elim (Returns p w) (not planned.ok) _ _
        (λ h. inr (
          refl,
          (
            refl,
            reason v (quality_profile w) planned _ e (ground arith) (λ k. (append-nil pre _ k).1),
          ),
        ))
        (λ h. by_mapping (create_horizontal_rank_mapper p.doubles columns planned.columns))
    where
      by_mapping :
          (m : Text ⊎ (Number → Number))
          → Returns p w (
              continue p
                (record (failure first_version) {
                  pre_existing = pre;
                  old_required = old;
                  new_required = required_view_box_from planned;
                })
                (λ mapped.
                  fitted p mapped.0 (quality_profile w)
                  >>= settle p (quality_profile w) pre old planned mapped.1)
                (mapped_by p.doubles w m))
      by_mapping (inl message) = inr (refl, (refl, inl (λ h. cons_not_nil (append-nil pre _ h).1)))
      by_mapping (inr f) = fitted-Returns pre old planned _ _ (mapped-IsTarget p.doubles f w)

  -- The plan comes from a document that compiles.
  planned_of-Returns :
      (f : Compiled → Option Migration)
      → ((v : Value) (c : Compiled) → p.compile v (quality_profile w) ≡ some c → Returns p w (f c))
      → Returns p w (planned_of p w (quality_profile w) >>= f)
  unfolding planned_of
  planned_of-Returns f next = by_answer (p.compile (intrinsic_workflow w) (quality_profile w)) refl
    where
      by_answer :
          (o : Option Compiled)
          → p.compile (intrinsic_workflow w) (quality_profile w) ≡ o
          → Returns p w ((o >>= or_planning p w (quality_profile w)) >>= f)
      by_answer none e = inl (intrinsic_workflow w, quality_profile w, e)
      by_answer (some c) e =
          if_elim (λ o. Returns p w (o >>= f)) c.ok (some c)
            (p.compile (planning_workflow w) (quality_profile w))
            (λ h. next (intrinsic_workflow w) c e)
            (λ h.
              compiled-Returns (planning_workflow w) (quality_profile w) f
                (next (planning_workflow w)))

  after_probe-Returns :
      (v : Value) (legacy probe : Compiled)
      → p.compile v (quality_profile w) ≡ some probe
      → Returns p w (after_probe p w (quality_profile w) legacy probe)
  after_probe-Returns v legacy probe e =
      if_elim (Returns p w) (not probe.ok) _ _
        (λ h. inr (
          refl,
          (
            refl,
            reason v (quality_profile w) probe _ e (ground arith)
                (λ k. (append-nil _ [] (append-nil _ _ k).1).0),
          ),
        ))
        (λ h.
          compiled-Returns (without_view_box w) (quality_profile w) _
            (λ requirement _. planned_of-Returns _ (place-Returns _ _ probe.columns)))

  migrate_first-Returns : Returns p w (migrate_first p w (quality_profile w))
  unfolding migrate_first
  migrate_first-Returns =
      compiled-Returns w (quality_profile w) _ (λ legacy _. by_probe legacy (probe_document w) refl)
    where
      by_probe :
          (legacy : Compiled) (o : Option Value)
          → probe_document w ≡ o
          → Returns p w (
              (o >>= λ probe. p.compile probe (quality_profile w))
              >>= after_probe p w (quality_profile w) legacy)
      by_probe legacy none e = inr (inr e)
      by_probe legacy (some probe) e =
          compiled-Returns probe (quality_profile w) _ (after_probe-Returns probe legacy)

  migrate_second-Returns :
      has_version 2 w ≡ true
      → is_plain_object w ≡ true
      → schema_diagnostics p w ≡ some []
      → Returns p w (migrate_second p w (quality_profile w))
  unfolding migrate_second
  migrate_second-Returns version object valid =
      compiled-Returns w (quality_profile w) (kept_second p w) (λ c e.
        if_elim (Returns p w) (not c.ok) _ _
          (λ h. inr (
            refl,
            (refl, reason w (quality_profile w) c _ e (ground arith) (λ k. (append-nil _ [] k).0)),
          ))
          (λ h.
            inl (refl, (w, refl, target-IsMigrated w c source-IsTarget e (ground arith) valid))))
    where
      source-IsTarget : IsTarget w w
      source-IsTarget = record {
        version = version;
        object = object;
        meta = λ k new. refl;
        kept = λ k version meta other. refl;
      }

  valid-Returns :
      is_plain_object w ≡ true
      → schema_diagnostics p w ≡ some []
      → Returns p w (migrate_object p w (some []))
  valid-Returns object valid =
      if_elim (Returns p w) (has_version 2 w) _ _ (λ two. migrate_second-Returns two object valid)
        (λ not_two.
          if_elim (Returns p w) (has_version 1 w) _ _ (λ one. migrate_first-Returns)
            (λ neither. inr (refl, (refl, inl cons_not_nil))))

  object-Returns :
      is_plain_object w ≡ true
      → (a : Validated) → p.validate w ≡ a
      → Returns p w (migrate_object p w (diagnostics_of a))
  object-Returns object thrown e = inr (inl (w, e))
  object-Returns object (refused (d ∷ ds)) e = inr (refl, (refl, inl cons_not_nil))
  object-Returns object (refused []) e = valid-Returns object (ap diagnostics_of e)
  object-Returns object passed e = valid-Returns object (ap diagnostics_of e)

  -- The migration throws only if the compiler or the validator does, or if the source has no title
  -- or no lane to probe with. Otherwise it ends with a document of schema version 2 that compiles,
  -- under the profile of the source, and passes the schema, whose fields are those of the source
  -- but for the version, the edges and the view box; or with no document, and at least one
  -- diagnostic unless the compiler refuses some document without one.
  pub migrate_workflow_document-Returns : Returns p w (migrate_workflow_document p w)
  unfolding migrate_workflow_document
  migrate_workflow_document-Returns =
      if_elim (Returns p w) (not (is_plain_object w)) _ _
        (λ e. inr (refl, (refl, inl cons_not_nil)))
        (λ e. object-Returns (ground arith) (p.validate w) refl)

  -- The document of a migration that succeeds.
  document-IsMigrated :
      (m : Migration) (doc : Value)
      → migrate_workflow_document p w ≡ some m
      → m.document ≡ some doc
      → IsMigrated p w doc
  document-IsMigrated m doc e k =
      let answer : Returns p w (some m) = rw e at migrate_workflow_document-Returns in
      elim answer [
        | inl (ok, (doc', k', good)) ↦
            let same_doc : doc' ≡ doc = Option-injective (sym k' ∙ k) in rw (← same_doc) good
        | inr (refuses, (missing, why)) ↦ absurd (ground arith)
      ]

-- The migration of a document that a migration has returned succeeds, and returns it unchanged.
pub migrate_workflow_document_again :
    (p : Program) (w doc : Value) (m : Migration)
    → migrate_workflow_document p w ≡ some m
    → m.document ≡ some doc
    → (again : Migration) × (migrate_workflow_document p doc ≡ some again)
      × (again.ok ≡ true)
      × (again.document ≡ some doc)
unfolding migrate_workflow_document migrate_second
migrate_workflow_document_again p w doc m e k =
    let good = document-IsMigrated p w m doc e k in
    let compiles : p.compile doc (quality_profile doc) ≡ some good.compiled =
      rw (profile_kept w doc good.meta) good.compiles in
    rw (good.object, good.valid, good.version, compiles, good.fits) (_, refl, refl, refl)
