-- ===== src/Update/State.antt =====
-- The cached state of check-update.mjs: its type, its transitions, and how it is written and read.
-- The object's fields `check.*` and `notification.*` are fields of the record.
pub mod Acknowledge
pub mod Recovery
use Prim.Native.Nat.{Ordering}
use codearmory_blacksmith.Base.{
  ℕ, suc, ◌+◌, ◌-◌, ◌^◌, ◌≡◌, Text, codes, List, [], ◌∷◌, ◌++◌, Bool, true, false, not, ◌&&◌, ◌||◌,
  Option, none, some, text_eq, includes, strip_prefix, if◌then◌else◌, all, leb, ltb,
}
use codearmory_blacksmith.Json.{
  Value, Items, Fields, Number, null, num, str, arr, obj, nil, cons, end, field, get,
  is_plain_object, fields_of, has_own, has_only_keys, is_text, is_number_value, as_text, coerce,
}
use codearmory_blacksmith.Json.Size.{json_size, natural_number}
use codearmory_blacksmith.Update.Semver.{
  parse_semver, compare_semver, is_stable_core_version, ◌>>=◌,
}
use codearmory_blacksmith.Update.Contract.{
  skill_id, is_hex, Severity, severity_text, read_severity, validate_release_notes_url,
  is_stable_core, trusted_release_path,
}

abbrev pub max_cache_state_bytes : ℕ
max_cache_state_bytes = 65536

abbrev pub max_safe_integer : ℕ
max_safe_integer = 2 ^ 53 - 1

abbrev pub longest_iso_timestamp : Text
longest_iso_timestamp = codes "+275760-09-13T00:00:00.000Z"

-- The digest is whatever value passed the pattern, which reads `String(value)`.
pub record Candidate : Type 0 where
  pub version : Text
  pub target_digest : Value
  pub severity : Severity
  pub release_notes : Text

pub record State : Type 0 where
  pub installed_version : Option Text
  pub next_check_at : Option Text
  pub consecutive_failures : ℕ
  pub offered : List Text
  pub acknowledged : List Text
  pub candidate : Option Candidate

abbrev pub empty_state : Option Text → State
empty_state installed = record {
  installed_version = installed;
  next_check_at = none;
  consecutive_failures = 0;
  offered = [];
  acknowledged = [];
  candidate = none;
}

-- `digests.filter((digest) => digest !== target)`
unfoldable pub without : Text → List Text → List Text
without t [] = []
without t (x ∷ xs) = let rest = without t xs in if text_eq x t then rest else x ∷ rest

unfoldable pub state_after_acknowledgement : State → Text → State
unfolding without includes
state_after_acknowledgement s target = record s {
  offered = without target s.offered;
  acknowledged =
      if includes target s.acknowledged then s.acknowledged else s.acknowledged ++ target ∷ [];
}

unfoldable pub state_with_failure_check : State → Text → ℕ → Bool → State
state_with_failure_check s next failures withdraw = record s {
  next_check_at = some next;
  consecutive_failures = failures;
  candidate = if withdraw then none else s.candidate;
}

-- How `JSON.stringify` sees a state.
abbrev text_or_null : Option Text → Value
text_or_null none = null
text_or_null (some t) = str t

abbrev pub texts : List Text → Items
texts [] = nil
texts (t ∷ ts) = cons (str t) (texts ts)

abbrev candidate_value : Candidate → Value
candidate_value c = obj (
    field (codes "version") (str c.version) (
      field (codes "targetDigest") c.target_digest (
        field (codes "severity") (str (severity_text c.severity))
          (field (codes "releaseNotes") (str c.release_notes) end))))

abbrev candidate_field : Option Candidate → Fields
candidate_field none = end
candidate_field (some c) = field (codes "candidate") (candidate_value c) end

abbrev check_value : State → Value
check_value s = obj (
    field (codes "nextCheckAt") (text_or_null s.next_check_at)
      (field (codes "consecutiveFailures") (num (natural_number s.consecutive_failures)) end))

abbrev notification_value : State → Value
notification_value s = obj (
    field (codes "offeredDigests") (arr (texts s.offered))
      (field (codes "acknowledgedDigests") (arr (texts s.acknowledged)) end))

unfoldable pub state_value : State → Value
state_value s = obj (
    field (codes "schemaVersion") (num (natural_number 1)) (
      field (codes "skillId") (str skill_id) (
        field (codes "installedVersion") (text_or_null s.installed_version) (
          field (codes "check") (check_value s)
            (field (codes "notification") (notification_value s) (candidate_field s.candidate))))))

-- The bytes written are those of the returned value and a newline.
unfoldable pub encode_bounded_state : State → Option Value
unfolding state_value
encode_bounded_state s =
    if leb (json_size (state_value s) + 1) max_cache_state_bytes then some (state_value s) else none

abbrev pub is_bounded : State → Bool
is_bounded s = elim (encode_bounded_state s) [ none ↦ false | some _ ↦ true ]

abbrev pub longest_failure : State → State
longest_failure s = state_with_failure_check s longest_iso_timestamp 2 false

-- The loop over the offered digests, which acknowledges one after the other.
unfoldable pub acknowledgements_fit : State → List Text → Bool
unfolding encode_bounded_state state_with_failure_check state_after_acknowledgement
acknowledgements_fit s [] = true
acknowledgements_fit s (target ∷ rest) =
    let next = state_after_acknowledgement s target in
    is_bounded next && is_bounded (longest_failure next) && acknowledgements_fit next rest

unfoldable pub encode_recoverable_state : State → Option Value
unfolding acknowledgements_fit
encode_recoverable_state s = do
  encoded ← encode_bounded_state s
  let recoverable = is_bounded (longest_failure s) && acknowledgements_fit s s.offered
  if recoverable then some encoded else none

-- /^sha256:[a-f0-9]{64}$/
unfoldable pub is_digest : Text → Bool
is_digest t = elim (strip_prefix (codes "sha256:") t) [ none ↦ false | some r ↦ is_hex 64 r ]

unfoldable pub validate_cached_candidate : Value → Option Candidate
unfolding is_digest coerce read_severity validate_release_notes_url has_only_keys get
validate_cached_candidate v =
    let allowed =
      has_only_keys v
        (codes "version" ∷ codes "targetDigest" ∷ codes "severity" ∷ codes "releaseNotes" ∷ []) in
    let digest = get v (codes "targetDigest") in
    if not (is_plain_object v) || not allowed then none else do
      version ← as_text (get v (codes "version"))
      severity ← read_severity (get v (codes "severity"))
      let fits = is_stable_core_version version && is_digest (coerce digest)
      if not fits then none else do
        notes ← validate_release_notes_url (get v (codes "releaseNotes")) version
        some (record {
          version = version;
          target_digest = digest;
          severity = severity;
          release_notes = notes;
        })

-- `[...new Set(digests)]`: each text at its first place
unfoldable pub unique : List Text → List Text
unfolding without
unique [] = []
unique (x ∷ xs) = x ∷ without x (unique xs)

-- An array of digests, without repetitions.
read_items : Items → Option (List Text)
read_items nil = some []
read_items (cons x xs) = do
  t ← as_text x
  ts ← read_items xs
  if is_digest t then some (t ∷ ts) else none

unfoldable pub read_digests : Value → Option (List Text)
unfolding read_items unique
read_digests (arr xs) = do ts ← read_items xs; some (unique ts)
read_digests _ = none

-- `null` or a text; the outer `none` is a refusal.
abbrev pub read_text_or_null : Value → Option (Option Text)
read_text_or_null null = some none
read_text_or_null (str t) = some (some t)
read_text_or_null _ = none

abbrev safe : Option ℕ → Option ℕ
safe none = none
safe (some n) = if leb n max_safe_integer then some n else none

-- `Number.isSafeInteger(value) && value >= 0`
abbrev pub read_count : Value → Option ℕ
read_count (num x) = safe x.natural
read_count _ = none

-- `installedVersion !== null && value.installedVersion !== installedVersion`, refused
abbrev pub agrees : Option Text → Option Text → Bool
agrees none found = true
agrees (some t) none = false
agrees (some t) (some u) = text_eq u t

abbrev pub or_else : Option Text → Option Text → Option Text
or_else none u = u
or_else (some t) u = some t

abbrev pub is_version : Option Text → Bool
is_version none = true
is_version (some t) = elim (parse_semver t) [ none ↦ false | some _ ↦ true ]

-- `digests.includes(value)`
abbrev pub includes_value : Value → List Text → Bool
includes_value (str t) ts = includes t ts
includes_value _ ts = false

abbrev pub is_newer : Option Ordering → Bool
is_newer (some Ordering.gt) = true
is_newer _ = false

abbrev pub is_known : Candidate → List Text → List Text → Bool
is_known c offered acknowledged =
    includes_value c.target_digest offered || includes_value c.target_digest acknowledged

-- A candidate newer than the installed version must have been offered or acknowledged.
abbrev pub admits : Option Text → List Text → List Text → Candidate → Bool
admits none offered acknowledged c = true
admits (some installed) offered acknowledged c =
    not (is_newer (compare_semver c.version installed)) || is_known c offered acknowledged

abbrev pub read_candidate : Value → Option Text → List Text → List Text → Option (Option Candidate)
read_candidate v installed offered acknowledged =
    if not (has_own (codes "candidate") (fields_of v))
    then some none
    else elim (validate_cached_candidate (get v (codes "candidate"))) [
      | none ↦ none
      | some c ↦ if admits installed offered acknowledged c then some (some c) else none
    ]

unfoldable pub normalize_state : Value → Option Text → Option State
unfolding get has_own read_digests validate_cached_candidate encode_recoverable_state
normalize_state v installed =
    let check = get v (codes "check") in
    let notification = get v (codes "notification") in
    let is_ours =
      is_plain_object v
      && is_number_value (get v (codes "schemaVersion")) 1
      && is_text (get v (codes "skillId")) skill_id
      && is_plain_object check
      && is_plain_object notification in
    if not is_ours then none else do
      found ← read_text_or_null (get v (codes "installedVersion"))
      next ← read_text_or_null (get check (codes "nextCheckAt"))
      failures ← read_count (get check (codes "consecutiveFailures"))
      let effective = or_else installed found
      let agreed = agrees installed found && is_version effective
      if not agreed then none else do
        offered ← read_digests (get notification (codes "offeredDigests"))
        acknowledged ← read_digests (get notification (codes "acknowledgedDigests"))
        candidate ← read_candidate v effective offered acknowledged
        let s : State = record {
          installed_version = effective;
          next_check_at = next;
          consecutive_failures = failures;
          offered = offered;
          acknowledged = acknowledged;
          candidate = candidate;
        }
        encoded ← encode_recoverable_state s
        some s
