-- ===== src/Update/Contract.antt =====
-- The validators of update-contract.mjs. An `UpdateContractError` is `none`.
pub mod Trusted
use codearmory_blacksmith.Base.{
  ℕ, ◌+◌, ◌-◌, ◌*◌, ◌≤◌, Text, codes, List, [], ◌∷◌, ◌++◌, Bool, true, false, not, ◌&&◌, ◌||◌,
  Option, none, some, text_eq, includes, if◌then◌else◌, all, any, ltb, leb, ◌==◌, length,
}
use Prim.Native.Nat.{◌%◌}
use codearmory_blacksmith.Json.{
  Value, str, get, has_exact_keys, is_text, as_text, is_number_value, coerce,
}
use codearmory_blacksmith.Update.Semver.{
  is_digit, is_stable_core_version, release_channel_for_version, Channel, development, stable,
  ◌>>=◌,
}

abbrev pub skill_id : Text
skill_id = codes "archify"

abbrev pub expected_repository : Text
expected_repository = codes "https://github.com/tt-a1i/archify"

abbrev pub default_manifest_url : Text
default_manifest_url = codes "https://tt-a1i.github.io/archify/skill-updates/archify/stable.json"

-- /[\u0000-\u001f\u007f-\u009f\u202a-\u202e\u2066-\u2069]/u
abbrev pub is_control_or_bidi : ℕ → Bool
is_control_or_bidi c =
    leb c 0x1f
    || (leb 0x7f c && leb c 0x9f)
    || (leb 0x202a c && leb c 0x202e)
    || (leb 0x2066 c && leb c 0x2069)

abbrev pub is_hex_digit : ℕ → Bool
is_hex_digit c = is_digit c || (leb b'a' c && leb c b'f')

-- /^[a-f0-9]{n}$/
abbrev pub is_hex : ℕ → Text → Bool
is_hex n t = length t == n && all is_hex_digit t

abbrev pub channel_text : Channel → Text
channel_text development = codes "development"
channel_text stable = codes "stable"

-- The two digits at the head of a text, and what follows them.
abbrev two_digits : Text → Option (ℕ × Text)
two_digits (a ∷ b ∷ rest) =
    if is_digit a && is_digit b then some ((a - b'0') * 10 + (b - b'0'), rest) else none
two_digits _ = none

abbrev mark : ℕ → Text → Option Text
mark c [] = none
mark c (x ∷ xs) = if x == c then some xs else none

abbrev is_leap_year : ℕ → Bool
is_leap_year y = y % 4 == 0 && (not (y % 100 == 0) || y % 400 == 0)

abbrev days_in_month : ℕ → ℕ → ℕ
days_in_month y m =
    if m == 2
    then (if is_leap_year y then 29 else 28)
    else if m == 4 || (m == 6 || (m == 9 || m == 11))
    then 30
    else 31

-- What `Date.parse` and the comparison with `toISOString` let through: a real day and time of day.
abbrev is_real_instant : ℕ → ℕ → ℕ → ℕ → ℕ → ℕ → Bool
is_real_instant y mo d h mi s =
    leb 1 mo
    && leb mo 12
    && leb 1 d
    && leb d (days_in_month y mo)
    && ltb h 24
    && ltb mi 60
    && ltb s 60

-- The numbers of /^\d{4}-\d{2}-\d{2}T\d{2}:\d{2}:\d{2}Z$/, held against the calendar.
read_instant : Text → Option Bool
read_instant t = do
  c ← two_digits t
  y ← two_digits c.1
  t₁ ← mark b'-' y.1
  mo ← two_digits t₁
  t₂ ← mark b'-' mo.1
  d ← two_digits t₂
  t₃ ← mark b'T' d.1
  h ← two_digits t₃
  t₄ ← mark b':' h.1
  mi ← two_digits t₄
  t₅ ← mark b':' mi.1
  s ← two_digits t₅
  t₆ ← mark b'Z' s.1
  if text_eq t₆ [] then some (is_real_instant (c.0 * 100 + y.0) mo.0 d.0 h.0 mi.0 s.0) else none

unfoldable pub is_canonical_utc_timestamp : Text → Bool
unfolding read_instant
is_canonical_utc_timestamp t = elim (read_instant t) [ none ↦ false | some ok ↦ ok ]

unfoldable pub validate_canonical_utc_timestamp : Value → Option Text
unfolding is_canonical_utc_timestamp
validate_canonical_utc_timestamp v = do
  t ← as_text v
  if is_canonical_utc_timestamp t then some t else none

-- `isStableCoreVersion(value)`: no value but a text parses.
abbrev pub is_stable_core : Value → Bool
is_stable_core (Value.str s) = is_stable_core_version s
is_stable_core _ = false

pub record LocalRelease : Type 0 where
  pub schema_version : ℕ
  pub skill_id : Text
  pub channel : Text
  pub version : Text
  pub repository : Text
  pub update_manifest_url : Text

abbrev local_release_keys : List Text
local_release_keys =
    codes "schemaVersion"
    ∷ codes "skillId"
    ∷ codes "channel"
    ∷ codes "version"
    ∷ codes "source"
    ∷ codes "updateManifestUrl"
    ∷ []

abbrev pub has_local_identity : Value → Bool
has_local_identity v =
    has_exact_keys v local_release_keys
    && is_number_value (get v (codes "schemaVersion")) 1
    && is_text (get v (codes "skillId")) skill_id
    && has_exact_keys (get v (codes "source")) (codes "repository" ∷ [])
    && is_text (get (get v (codes "source")) (codes "repository")) expected_repository
    && is_text (get v (codes "updateManifestUrl")) default_manifest_url

abbrev pub local_release : Channel → Text → LocalRelease
local_release channel version = record {
  schema_version = 1;
  skill_id = skill_id;
  channel = channel_text channel;
  version = version;
  repository = expected_repository;
  update_manifest_url = default_manifest_url;
}

unfoldable pub validate_local_release : Value → Option LocalRelease
unfolding has_exact_keys get
validate_local_release v = if not (has_local_identity v) then none else do
  version ← as_text (get v (codes "version"))
  expected ← release_channel_for_version version
  let agrees = is_text (get v (codes "channel")) (channel_text expected)
  if agrees then some (local_release expected version) else none

abbrev pub trusted_release_path : Text
trusted_release_path = codes "https://github.com/tt-a1i/archify/releases/tag/v"

-- `validateReleaseNotesUrl(value, version)`, for a version that is a text
unfoldable pub validate_release_notes_url : Value → Text → Option Text
unfolding is_stable_core_version
validate_release_notes_url v version =
    if not (is_stable_core_version version)
    then none
    else if is_text v (trusted_release_path ++ version)
    then some (trusted_release_path ++ version)
    else none

pub data Severity : Type 0 where
  normal security : Severity

abbrev pub severity_text : Severity → Text
severity_text normal = codes "normal"
severity_text security = codes "security"

-- `['normal', 'security'].includes(value)`
unfoldable pub read_severity : Value → Option Severity
read_severity v =
    if is_text v (codes "normal")
    then some normal
    else if is_text v (codes "security")
    then some security
    else none

-- The manifest that `validateStableUpdateManifest` returns. The two digests are whatever value
-- passed the pattern.
pub record StableManifest : Type 0 where
  pub version : Text
  pub published_at : Text
  pub tree_sha : Value
  pub sha256 : Value
  pub summary : Text
  pub release_notes : Text
  pub severity : Severity

abbrev pub manifest_keys : List Text
manifest_keys =
    codes "schemaVersion"
    ∷ codes "skillId"
    ∷ codes "channel"
    ∷ codes "version"
    ∷ codes "publishedAt"
    ∷ codes "source"
    ∷ codes "artifact"
    ∷ codes "summary"
    ∷ codes "releaseNotes"
    ∷ codes "severity"
    ∷ []

abbrev pub has_release_identity : Value → Bool
has_release_identity v =
    has_exact_keys v manifest_keys
    && is_number_value (get v (codes "schemaVersion")) 1
    && is_text (get v (codes "skillId")) skill_id
    && is_text (get v (codes "channel")) (codes "stable")
    && is_stable_core (get v (codes "version"))
    && has_exact_keys (get v (codes "source"))
        (codes "repository" ∷ codes "ref" ∷ codes "treeSha" ∷ [])
    && is_text (get (get v (codes "source")) (codes "repository")) expected_repository
    && is_text (get (get v (codes "source")) (codes "ref"))
        (b'v' ∷ coerce (get v (codes "version")))
    && is_hex 40 (coerce (get (get v (codes "source")) (codes "treeSha")))
    && has_exact_keys (get v (codes "artifact")) (codes "sha256" ∷ [])
    && is_hex 64 (coerce (get (get v (codes "artifact")) (codes "sha256")))

abbrev pub is_summary : Text → Bool
is_summary t = leb 1 (length t) && leb (length t) 160 && not (any is_control_or_bidi t)

unfoldable pub validate_stable_update_manifest : Value → Option StableManifest
unfolding has_exact_keys get coerce validate_canonical_utc_timestamp validate_release_notes_url
    read_severity
validate_stable_update_manifest v = if not (has_release_identity v) then none else do
  version ← as_text (get v (codes "version"))
  published_at ← validate_canonical_utc_timestamp (get v (codes "publishedAt"))
  summary ← as_text (get v (codes "summary"))
  release_notes ←
      (if is_summary summary
        then validate_release_notes_url (get v (codes "releaseNotes")) version
        else none)
  severity ← read_severity (get v (codes "severity"))
  some (record {
    version = version;
    published_at = published_at;
    tree_sha = get (get v (codes "source")) (codes "treeSha");
    sha256 = get (get v (codes "artifact")) (codes "sha256");
    summary = summary;
    release_notes = release_notes;
    severity = severity;
  })
