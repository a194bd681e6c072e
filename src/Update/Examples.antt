-- ===== src/Update/Examples.antt =====
-- The properties of the update check at concrete inputs.
use Prim.Native.Nat.{compare}
use codearmory_blacksmith.Base.{
  suc, zero, sym, ap, ◌∙◌, text_eq, ℕ, ◌+◌, ◌≤◌, ◌≡◌, ◌↔◌, ◌≢◌, refl, Text, codes, List, [], ◌∷◌,
  ◌++◌, true, Option, none, some, arith, length, includes, ltb,
}
use codearmory_blacksmith.Update.Contract.{skill_id}
use codearmory_blacksmith.Base.Order.{lexicographic}
use codearmory_blacksmith.Json.Size.{json_size, text_size, natural_number}
use codearmory_blacksmith.Json.{Value, num, obj, field, end, str}
use codearmory_blacksmith.Update.Semver.{
  stable, Semver, parse_semver, match_semver, compare_semver, compare_numeric_identifiers,
}
use codearmory_blacksmith.Update.Semver.Syntax.{parse_semver_iff, IsWellFormed, render_semver}
use codearmory_blacksmith.Update.Semver.Numeric.{compare_numeric_identifiers-decimal, decimal}
use codearmory_blacksmith.Update.Contract.{
  LocalRelease, local_release, StableManifest, normal, validate_stable_update_manifest,
  trusted_release_path, expected_repository,
}
use codearmory_blacksmith.Update.Contract.Trusted.{
  validate_stable_update_manifest-IsTrusted, IsTrusted,
}
use codearmory_blacksmith.Update.State.{
  State, Candidate, empty_state, state_value, is_bounded, longest_failure, encode_recoverable_state,
  state_after_acknowledgement, is_digest, normalize_state,
}
use codearmory_blacksmith.Update.State.Acknowledge.{IsAcknowledged}
use codearmory_blacksmith.Update.State.Recovery.{IsTidy, encode_recoverable_state-acknowledge}
use codearmory_blacksmith.Update.Check.{
  decide_acknowledgement, silent, already_notified, Clock, notification, Notification,
  successful_delay, is_fresh, acknowledged, digest_for_event_key, event_key_for_digest,
  result_for_candidate,
}
use codearmory_blacksmith.Update.Check.Run.{
  validate_manifest, commit_operation, decide_success, CheckRun, CommitRun, Outcome,
  check_for_update, AcknowledgeRun, acknowledge_update, Round, acquired, busy, successful_state,
  decoded, stored,
}
use codearmory_blacksmith.Update.Check.Announce.{IsAnnounced, IsAdmitted}
use codearmory_blacksmith.Update.Check.Provenance.{
  Announced, ReadsAdmitted, Seen, at_start, when_busy, when_reread, when_lost,
  check_for_update-IsAnnounced,
}
use codearmory_blacksmith.Update.Check.Schedule.{successful_state-is_fresh}
use codearmory_blacksmith.Update.Check.Notices.{acknowledge-IsAnnounced}
use codearmory_blacksmith.Update.Check.Loop.{
  ticks, acknowledge_update-ends, acknowledge_update-stored,
}
use codearmory_blacksmith.Update.Check.Admitted.{normalize_state-IsAdmitted}

abbrev release_1_2_3 : Semver
release_1_2_3 = record {
  major = codes "1";
  minor = codes "2";
  patch = codes "3";
  prerelease = some (codes "rc" ∷ codes "1" ∷ []);
  build = none;
}

parse_semver_example : (parse_semver (codes "1.2.3-rc.1") ≡ some release_1_2_3) ↔ (
    IsWellFormed release_1_2_3
    × (render_semver release_1_2_3 ≡ codes "1.2.3-rc.1")
    × (length (codes "1.2.3-rc.1") ≤ 128))
parse_semver_example = parse_semver_iff (codes "1.2.3-rc.1") release_1_2_3

compare_numeric_identifiers_example :
    compare_numeric_identifiers (codes "9") (codes "10")
    ≡ compare (decimal 0 (codes "9")) (decimal 0 (codes "10"))
compare_numeric_identifiers_example =
    compare_numeric_identifiers-decimal (codes "9") (codes "10") refl refl

abbrev installed : LocalRelease
installed = local_release stable (codes "2.16.0")

abbrev hex : Text
hex = codes "0123456789abcdef0123456789abcdef0123456789abcdef0123456789abcdef"

abbrev digest : Text
digest = codes "sha256:" ++ hex

abbrev newer_candidate : Candidate
newer_candidate = record {
  version = codes "2.17.0";
  target_digest = str digest;
  severity = normal;
  release_notes = trusted_release_path ++ codes "2.17.0";
}

abbrev offering : State
offering = record (empty_state (some (codes "2.16.0"))) {
  offered = digest ∷ [];
  candidate = some newer_candidate;
}

-- A clock that writes an instant as one code unit.
abbrev read_unit : Text → Option ℕ
read_unit (ms ∷ []) = some ms
read_unit _ = none

abbrev unit_clock : Clock
unit_clock = record {
  iso = λ ms. ms ∷ [];
  parse = read_unit;
  parse-iso = λ ms h. refl;
  parse-nil = refl;
}

offering-IsTidy : IsTidy offering
unfolding is_digest includes
offering-IsTidy = record {
  offered_digests = refl;
  acknowledged_digests = refl;
  unique = refl;
  disjoint = refl;
}

acknowledgement_fits_example :
    (is_bounded (state_after_acknowledgement offering digest) ≡ true)
    × (is_bounded (longest_failure (state_after_acknowledgement offering digest)) ≡ true)
unfolding encode_recoverable_state includes json_size text_size natural_number text_eq
acknowledgement_fits_example =
    encode_recoverable_state-acknowledge offering (state_value offering) digest offering-IsTidy refl
      refl

successful_state-is_fresh_example :
    is_fresh unit_clock (successful_state unit_clock offering 1000 0 newer_candidate) 2000
    ≡ ltb 2000 (1000 + successful_delay 0)
successful_state-is_fresh_example =
    successful_state-is_fresh unit_clock offering 1000 0 2000 newer_candidate (omega arith)
      (omega arith)

abbrev release_notification : Notification
release_notification = notification installed newer_candidate

abbrev tree : Text
tree = codes "0123456789abcdef0123456789abcdef01234567"

abbrev manifest_value : Value
manifest_value = obj (
    field (codes "schemaVersion") (num (natural_number 1)) (
      field (codes "skillId") (str skill_id) (
        field (codes "channel") (str (codes "stable")) (
          field (codes "version") (str (codes "2.17.0")) (
            field (codes "publishedAt") (str (codes "2026-01-02T03:04:05Z")) (
              field (codes "source")
                (obj (
                  field (codes "repository") (str expected_repository) (
                    field (codes "ref") (str (codes "v2.17.0"))
                      (field (codes "treeSha") (str tree) end))))
                (field (codes "artifact") (obj (field (codes "sha256") (str hex) end)) (
                  field (codes "summary") (str (codes "Fixes")) (
                    field (codes "releaseNotes") (str (trusted_release_path ++ codes "2.17.0"))
                      (field (codes "severity") (str (codes "normal")) end))))))))))

abbrev manifest : StableManifest
manifest = record {
  version = codes "2.17.0";
  published_at = codes "2026-01-02T03:04:05Z";
  tree_sha = str tree;
  sha256 = str hex;
  summary = codes "Fixes";
  release_notes = trusted_release_path ++ codes "2.17.0";
  severity = normal;
}

validate_stable_update_manifest_example : IsTrusted manifest_value manifest
unfolding validate_stable_update_manifest text_eq lexicographic natural_number match_semver
validate_stable_update_manifest_example =
    validate_stable_update_manifest-IsTrusted manifest_value manifest refl

normalize_state_example : IsAdmitted installed offering
unfolding normalize_state text_eq natural_number match_semver compare_semver json_size text_size
normalize_state_example = normalize_state-IsAdmitted (state_value offering) installed offering refl

offering-IsAnnounced : IsAnnounced installed release_notification offering
unfolding compare_semver parse_semver match_semver includes text_eq
offering-IsAnnounced = record {
  digest = digest;
  candidate = newer_candidate;
  cached = refl;
  target = refl;
  names = refl;
  newer = refl;
  offered = refl;
  pending = refl;
}

acknowledge-IsAnnounced_example :
    (digest_for_event_key release_notification.event_key ≡ some digest)
    × ((decide_acknowledgement release_notification.event_key digest offering).result
        ≡ acknowledged release_notification.event_key)
    × (s' : State) × ((decide_acknowledgement release_notification.event_key digest offering).state
        ≡ some s')
    × IsAcknowledged digest offering s'
    × (result_for_candidate installed s' ≡ some (silent already_notified))
unfolding is_digest offering-IsAnnounced
acknowledge-IsAnnounced_example =
    acknowledge-IsAnnounced installed release_notification offering offering-IsAnnounced refl

abbrev plain_commit : State → CommitRun
plain_commit s = record {
  owns_before = some true;
  owns_after = some true;
  cancels = true;
  current = some s;
  write = stored;
}

abbrev rounds : ℕ → ℕ → List Round
rounds zero now = []
rounds (suc n) now =
    record { acquire = busy; commit = plain_commit offering; clock = some (now + 1) }
    ∷ rounds n (now + 1)

abbrev waiting : AcknowledgeRun
waiting = record {
  event_key = event_key_for_digest (str digest);
  release = some installed;
  is_prepared = true;
  started = some 5;
  rounds = rounds 1201 5;
}

ticks-rounds : (n now : ℕ) → ticks now (rounds n now) ≡ true
ticks-rounds zero now = refl
ticks-rounds (suc n) now = ground (arith, ticks-rounds n (now + 1))

length-rounds : (n now : ℕ) → length (rounds n now) ≡ n
length-rounds zero now = refl
length-rounds (suc n) now = ap suc (length-rounds n (now + 1))

acknowledge_update-ends_example : acknowledge_update waiting ≢ none
acknowledge_update-ends_example =
    acknowledge_update-ends waiting (λ now h. ground (arith, ticks-rounds 1201 5))
      (rw (length-rounds 1201 5) (omega arith))

abbrev accepted : AcknowledgeRun
accepted = record waiting {
  rounds = record { acquire = acquired; commit = plain_commit offering; clock = some 6 } ∷ [];
}

abbrev accepted_outcome : Outcome
accepted_outcome = record {
  result = acknowledged (event_key_for_digest (str digest));
  stored = some (state_after_acknowledgement offering digest);
}

acknowledge_update-stored_example :
    (event_key_for_digest (str digest) ≡ accepted.event_key)
    × (target : Text) × (digest_for_event_key (event_key_for_digest (str digest)) ≡ some target)
    × (s s' : State) × (accepted_outcome.stored ≡ some s')
    × IsAcknowledged target s s'
unfolding acknowledge_update event_key_for_digest text_eq encode_recoverable_state json_size
    text_size natural_number
acknowledge_update-stored_example =
    acknowledge_update-stored accepted accepted_outcome (event_key_for_digest (str digest)) refl
      refl

abbrev empty : State
empty = empty_state (some (codes "2.16.0"))

abbrev first_check : CheckRun
first_check = record {
  has_fetch = true;
  release = some installed;
  now = some 1000;
  random = 0;
  prepared = some empty;
  acquire = acquired;
  seen_busy = none;
  reread = some empty;
  cancels = true;
  owns_claim = some true;
  owns_verified = some true;
  seen_lost = none;
  fetch = decoded manifest_value;
  commit = plain_commit empty;
}

empty-only : (s : State) → Seen first_check s → s ≡ empty
empty-only s (at_start h) = ground arith
empty-only s (when_busy h) = ground arith
empty-only s (when_reread h) = ground arith
empty-only s (when_lost h) = ground arith

first_check-ReadsAdmitted : ReadsAdmitted first_check installed
first_check-ReadsAdmitted s seen c e g =
    let f : none ≡ some c = sym (ap (λ (x : State). x.candidate) (empty-only s seen)) ∙ e in
    absurd (ground arith)

check_for_update-IsAnnounced_example :
    Announced first_check installed (check_for_update unit_clock first_check) release_notification
unfolding check_for_update is_fresh validate_manifest validate_stable_update_manifest text_eq
    lexicographic natural_number match_semver commit_operation decide_success compare_semver
    encode_recoverable_state json_size text_size
check_for_update-IsAnnounced_example =
    check_for_update-IsAnnounced unit_clock first_check installed release_notification refl
      first_check-ReadsAdmitted refl
