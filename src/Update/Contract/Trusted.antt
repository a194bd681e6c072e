-- ===== src/Update/Contract/Trusted.antt =====
-- What the validators of update-contract.mjs let through.
use mathlib.Core.Path.{subst}
use codearmory_blacksmith.Base.{
  leb→le, ◌≤◌, ◌≡◌, ◌↔◌, refl, ap, ◌∙◌, Text, codes, [], ◌∷◌, ◌++◌, Bool, true, false, not, ◌&&◌,
  Option, none, some, if◌then◌else◌, arith, leb, any, length, text_eq_iff, and_true,
}
use codearmory_blacksmith.Json.{Value, str, get, coerce, is_text, as_text, has_exact_keys}
use codearmory_blacksmith.Update.Semver.Syntax.{>>=-elim}
use codearmory_blacksmith.Update.Semver.{is_stable_core_version}
use codearmory_blacksmith.Update.Contract.{
  is_summary, Severity, read_severity, trusted_release_path, StableManifest, has_release_identity,
  validate_stable_update_manifest, validate_release_notes_url, is_canonical_utc_timestamp,
  validate_canonical_utc_timestamp, is_hex, is_control_or_bidi, expected_repository,
}

is_text_iff : (v : Value) (t : Text) → (is_text v t ≡ true) ↔ (v ≡ str t)
is_text_iff (str s) t = ground (arith, text_eq_iff s t)
is_text_iff _ t = ground arith

not-true : (b : Bool) → not b ≡ true → b ≡ false
not-true b h = ground arith

-- To follow a refusal that did not happen.
pub guard-elim {ℓ} :
    {A : Type ℓ} (b : Bool) (x : Option A) {y : A}
    → (if not b then none else x) ≡ some y
    → (b ≡ true) × (x ≡ some y)
guard-elim true x h = (refl, h)
guard-elim false x h = absurd (ground arith)

as_text-eq : (v : Value) {t : Text} → as_text v ≡ some t → v ≡ str t
as_text-eq (str t) h = ground arith
as_text-eq _ h = absurd (ground arith)

notes_iff :
    (b : Bool) (v : Value) (p t : Text)
    → ((if not b then none else if is_text v p then some p else none) ≡ some t)
      ↔ ((b ≡ true) × (v ≡ str t) × (t ≡ p))
notes_iff false v p t = ground arith
notes_iff true v p t = ground (arith, is_text_iff v p)

-- A release-notes address is accepted exactly when the version is a stable core version and the
-- address is the tag page of that version under the trusted path.
validate_release_notes_url_iff :
    (v : Value) (version t : Text)
    → (validate_release_notes_url v version ≡ some t) ↔ (
        (is_stable_core_version version ≡ true)
        × (v ≡ str t)
        × (t ≡ trusted_release_path ++ version))
unfolding validate_release_notes_url
validate_release_notes_url_iff v version t =
    notes_iff (is_stable_core_version version) v (trusted_release_path ++ version) t

-- What a reader of an accepted manifest relies on.
pub record IsTrusted (v : Value) (m : StableManifest) : Type 0 where
  pub version : get v (codes "version") ≡ str m.version
  pub stable : is_stable_core_version m.version ≡ true
  pub repository : get (get v (codes "source")) (codes "repository") ≡ str expected_repository
  pub ref : get (get v (codes "source")) (codes "ref") ≡ str (b'v' ∷ m.version)
  pub published : is_canonical_utc_timestamp m.published_at ≡ true
  pub tree : is_hex 40 (coerce m.tree_sha) ≡ true
  pub artifact : is_hex 64 (coerce m.sha256) ≡ true
  pub notes : m.release_notes ≡ trusted_release_path ++ m.version
  pub summary_size : (1 ≤ length m.summary) × (length m.summary ≤ 160)
  pub summary_plain : any is_control_or_bidi m.summary ≡ false

pub Option-injective {ℓ} : {A : Type ℓ} {x y : A} → some x ≡ some y → x ≡ y
Option-injective h = ground arith

pub then-elim {ℓ} :
    {A : Type ℓ} (b : Bool) (x : Option A) {y : A}
    → (if b then x else none) ≡ some y
    → (b ≡ true) × (x ≡ some y)
then-elim true x h = (refl, h)
then-elim false x h = absurd (ground arith)

timestamp-canonical :
    (v : Value) {t : Text}
    → validate_canonical_utc_timestamp v ≡ some t
    → is_canonical_utc_timestamp t ≡ true
unfolding validate_canonical_utc_timestamp
timestamp-canonical v h = >>=-elim (as_text v) _ h λ t e h.
    let (c, same) = then-elim (is_canonical_utc_timestamp t) (some t) h in
    subst (λ u. is_canonical_utc_timestamp u ≡ true) (Option-injective same) c

summary_facts :
    (t : Text)
    → is_summary t ≡ true
    → ((1 ≤ length t) × (length t ≤ 160)) × (any is_control_or_bidi t ≡ false)
summary_facts t h =
    let (sized, plain) = and_true (leb 1 (length t) && leb (length t) 160) _ h in
    let (low, high) = and_true (leb 1 (length t)) _ sized in
    (
      (leb→le 1 (length t) low, leb→le (length t) 160 high),
      not-true (any is_control_or_bidi t) plain,
    )

-- The tests of the identity, one by one.
identity-IsTrusted :
    (v : Value) (version published summary notes : Text) (level : Severity)
    → has_release_identity v ≡ true
    → get v (codes "version") ≡ str version
    → is_canonical_utc_timestamp published ≡ true
    → (is_summary summary ≡ true)
      × (validate_release_notes_url (get v (codes "releaseNotes")) version ≡ some notes)
    → IsTrusted v (record {
      version = version;
      published_at = published;
      tree_sha = get (get v (codes "source")) (codes "treeSha");
      sha256 = get (get v (codes "artifact")) (codes "sha256");
      summary = summary;
      release_notes = notes;
      severity = level;
    })
unfolding coerce
identity-IsTrusted v version published summary notes level id e p (fits, n) =
    let (id, artifact) =
      and_true _ (is_hex 64 (coerce (get (get v (codes "artifact")) (codes "sha256")))) id in
    let (id, _) = and_true _ (has_exact_keys (get v (codes "artifact")) (codes "sha256" ∷ [])) id in
    let (id, tree) =
      and_true _ (is_hex 40 (coerce (get (get v (codes "source")) (codes "treeSha")))) id in
    let (id, ref) =
      and_true _
        (is_text (get (get v (codes "source")) (codes "ref"))
          (b'v' ∷ coerce (get v (codes "version"))))
        id in
    let (_, repository) =
      and_true _ (is_text (get (get v (codes "source")) (codes "repository")) expected_repository)
        id in
    let (core, _, address) =
      (validate_release_notes_url_iff (get v (codes "releaseNotes")) version notes).0 n in
    record {
      version = e;
      stable = core;
      repository = (is_text_iff _ expected_repository).0 repository;
      ref = (is_text_iff _ _).0 ref ∙ ap (λ x. str (b'v' ∷ coerce x)) e;
      published = p;
      tree = tree;
      artifact = artifact;
      notes = address;
      summary_size = (summary_facts summary fits).0;
      summary_plain = (summary_facts summary fits).1;
    }

-- An accepted manifest names the expected repository, a stable core version and its tag, digests
-- that read as text are of the right form, a real instant, a plain summary of 1 to 160 code units,
-- and the release notes of that version under the trusted path.
pub validate_stable_update_manifest-IsTrusted :
    (v : Value) (m : StableManifest) → validate_stable_update_manifest v ≡ some m → IsTrusted v m
unfolding validate_stable_update_manifest
validate_stable_update_manifest-IsTrusted v m h =
    let (id, h) = guard-elim (has_release_identity v) _ h in
    >>=-elim (as_text (get v (codes "version"))) _ h λ version e₁ h.
      >>=-elim (validate_canonical_utc_timestamp (get v (codes "publishedAt"))) _ h
        λ published e₂ h. >>=-elim (as_text (get v (codes "summary"))) _ h λ summary e₃ h.
          >>=-elim
            (if is_summary summary
              then validate_release_notes_url (get v (codes "releaseNotes")) version
              else none)
            _ h
            λ notes e₄ h. >>=-elim (read_severity (get v (codes "severity"))) _ h λ level e₅ h.
              subst (IsTrusted v) (Option-injective h) (
                identity-IsTrusted v version published summary notes level id (as_text-eq _ e₁)
                  (timestamp-canonical (get v (codes "publishedAt")) e₂) (then-elim _ _ e₄))
