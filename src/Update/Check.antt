-- ===== src/Update/Check.antt =====
-- `checkForUpdate` and `acknowledgeUpdate` of check-update.mjs, and what they decide. What the file
-- system, the network and the clock answer during a run enters as a record of those answers; the
-- result comes with the state that the run stored, if it stored one.
pub mod Run
pub mod Announce
pub mod Provenance
pub mod Schedule
pub mod Notices
pub mod Loop
pub mod Admitted
use Prim.Native.Nat.{Ordering, min, ◌/◌}
use codearmory_blacksmith.Base.{
  ℕ, ◌+◌, ◌*◌, ◌^◌, ◌≤◌, ◌≡◌, Text, codes, List, [], ◌∷◌, ◌++◌, Bool, true, false, not, ◌&&◌,
  Option, none, some, text_eq, includes, strip_prefix, if◌then◌else◌, leb, ltb, all,
}
use codearmory_blacksmith.Json.{Value, str, coerce}
use codearmory_blacksmith.Update.Semver.{compare_semver, ◌>>=◌}
use codearmory_blacksmith.Update.Contract.{
  skill_id, default_manifest_url, LocalRelease, StableManifest, Severity,
}
use codearmory_blacksmith.Update.State.{
  State, Candidate, includes_value, state_after_acknowledgement, state_with_failure_check,
  encode_recoverable_state, is_digest,
}

-- `new Date(ms).toISOString()` and `Date.parse(text)`, in milliseconds since 1970. Instants before
-- that, and texts that are no date, are `none`: both count as past.
pub record Clock : Type 0 where
  pub iso : ℕ → Text
  pub parse : Text → Option ℕ
  pub parse-iso : (ms : ℕ) → ms ≤ 8640000000000000 → parse (iso ms) ≡ some ms
  pub parse-nil : parse [] ≡ none

abbrev pub check_ttl_ms : ℕ
check_ttl_ms = 259200000

abbrev pub max_cache_horizon_ms : ℕ
max_cache_horizon_ms = 311040000

abbrev pub first_failure_delay_ms : ℕ
first_failure_delay_ms = 21600000

abbrev pub later_failure_delay_ms : ℕ
later_failure_delay_ms = 86400000

pub data Reason : Type 0 where
  runtime_unavailable invalid_local_release invalid_clock cache_unavailable cache_valid : Reason
  check_in_progress current already_notified invalid_manifest check_failed : Reason
  invalid_acknowledgement : Reason

pub record Notification : Type 0 where
  pub event_key : Text
  pub installed_version : Text
  pub latest_version : Text
  pub target_digest : Value
  pub severity : Severity
  pub summary : Text
  pub release_notes : Text

pub data Result : Type 0 where
  silent : Reason → Result
  update_available : Notification → Result
  acknowledged : Text → Result

unfoldable pub event_key_for_digest : Value → Text
unfolding coerce
event_key_for_digest digest = skill_id ++ (b'@' ∷ coerce digest)

unfoldable pub digest_for_event_key : Text → Option Text
unfolding is_digest
digest_for_event_key key = do
  digest ← strip_prefix (skill_id ++ (b'@' ∷ [])) key
  if is_digest digest then some digest else none

abbrev pub summary_of : Text → Text
summary_of version =
    codes "Archify "
    ++ (version ++ codes " is available; see the official release notes for details.")

unfoldable pub notification : LocalRelease → Candidate → Notification
unfolding event_key_for_digest
notification release c = record {
  event_key = event_key_for_digest c.target_digest;
  installed_version = release.version;
  latest_version = c.version;
  target_digest = c.target_digest;
  severity = c.severity;
  summary = summary_of c.version;
  release_notes = c.release_notes;
}

-- `none` is an exception, which `compareSemver` raises on a text that is no version.
abbrev pub result_by_order : LocalRelease → State → Candidate → Option Ordering → Option Result
result_by_order release s c none = none
result_by_order release s c (some Ordering.gt) =
    if includes_value c.target_digest s.acknowledged
    then some (silent already_notified)
    else some (update_available (notification release c))
result_by_order release s c (some _) = some (silent current)

abbrev pub result_by_candidate : LocalRelease → State → Option Candidate → Option Result
result_by_candidate release s none = some (silent cache_valid)
result_by_candidate release s (some c) =
    result_by_order release s c (compare_semver c.version release.version)

unfoldable pub result_for_candidate : LocalRelease → State → Option Result
result_for_candidate release s = result_by_candidate release s s.candidate

-- `Math.round(a / b)` of natural numbers, for `b > 0`
abbrev round_div : ℕ → ℕ → ℕ
round_div a b = (2 * a + b) / (2 * b)

-- The delay to the next check. `random` counts units of 2 ^ -53, as `Math.random` does; a greater
-- value is clamped to 1, and one that is no number is 0. The arithmetic is exact here.
unfoldable pub successful_delay : ℕ → ℕ
successful_delay random =
    let bounded = min random (2 ^ 53) in
    round_div (check_ttl_ms * (4 * 2 ^ 53 + 2 * bounded)) (5 * 2 ^ 53)

abbrev pub failed_delay : ℕ → ℕ
failed_delay failures = if leb failures 1 then first_failure_delay_ms else later_failure_delay_ms

module _ (clock : Clock) where
  unfoldable pub next_successful_check : ℕ → ℕ → Text
  unfolding successful_delay
  next_successful_check now random = clock.iso (now + successful_delay random)

  unfoldable pub next_failed_check : ℕ → ℕ → Text
  next_failed_check now failures = clock.iso (now + failed_delay failures)

  unfoldable pub state_after_failed_check : State → ℕ → Bool → State
  unfolding state_with_failure_check next_failed_check
  state_after_failed_check s now withdraw =
      let failures = min (s.consecutive_failures + 1) 2 in
      state_with_failure_check s (next_failed_check now failures) failures withdraw

  abbrev pub next_check_of : Option Text → Option ℕ
  next_check_of none = clock.parse []
  next_check_of (some t) = clock.parse t

  abbrev pub next_check : State → Option ℕ
  next_check s = next_check_of s.next_check_at

  -- The test of `freshStateResult`
  unfoldable pub is_fresh : State → ℕ → Bool
  is_fresh s now = elim (next_check s) [
    | none ↦ false
    | some next ↦ ltb now next && leb next (now + max_cache_horizon_ms)
  ]

-- What a change of the state asks for: the state to store and the result, and a smaller state for
-- when the first one does not fit.
pub record Decision : Type 0 where
  pub state : Option State
  pub result : Result
  pub fallback : Option (State × Result)

pub decide_acknowledgement : Text → Text → State → Decision
unfolding includes state_after_acknowledgement
decide_acknowledgement event_key target s =
    if not (includes target s.offered) && not (includes target s.acknowledged)
    then record { state = none; result = silent invalid_acknowledgement; fallback = none }
    else record {
      state = some (state_after_acknowledgement s target);
      result = acknowledged event_key;
      fallback = none;
    }
