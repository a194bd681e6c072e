-- ===== src/Update/Tests.antt =====
-- Runs of the validators, and the properties at concrete inputs.
use Prim.Native.Nat.{Ordering}
use codearmory_blacksmith.Base.{text_eq, codes, ◌≡◌, refl, true, false, some, none}
use codearmory_blacksmith.Update.Semver.{compare_semver, parse_semver, match_semver}
use codearmory_blacksmith.Update.Contract.{is_canonical_utc_timestamp}

release_beats_prerelease : compare_semver (codes "2.17.0-dev.1") (codes "2.17.0") ≡ some Ordering.lt
unfolding compare_semver parse_semver match_semver
release_beats_prerelease = refl

numbers_not_texts : compare_semver (codes "1.9.0") (codes "1.10.0") ≡ some Ordering.lt
unfolding compare_semver parse_semver match_semver
numbers_not_texts = refl

leading_zero : compare_semver (codes "1.0.0-01") (codes "1.0.0") ≡ none
unfolding compare_semver parse_semver match_semver
leading_zero = refl

leap_day : is_canonical_utc_timestamp (codes "2024-02-29T23:59:59Z") ≡ true
unfolding is_canonical_utc_timestamp text_eq
leap_day = refl

no_leap_day : is_canonical_utc_timestamp (codes "2100-02-29T00:00:00Z") ≡ false
unfolding is_canonical_utc_timestamp text_eq
no_leap_day = refl
