-- ===== src/Update/Semver.antt =====
-- `parseSemver`, `compareSemver` and their helpers, of update-contract.mjs. An
-- `UpdateContractError` is `none`.
mod Scan
pub mod Syntax
pub mod Numeric
pub mod Precedence
use Prim.Native.Nat.{Ordering}
use codearmory_blacksmith.Base.{
  ℕ, ◌≤◌, Text, List, [], ◌∷◌, Bool, true, false, not, ◌&&◌, ◌||◌, Option, none, some, leb, ltb,
  ◌==◌, if◌then◌else◌, length, all, any, text_eq,
}
use codearmory_blacksmith.Base.Order.{compare_text, lexicographic, none_last, then_by}

abbrev pub is_digit : ℕ → Bool
is_digit c = leb b'0' c && leb c b'9'

-- [0-9A-Za-z-]
abbrev pub is_identifier_char : ℕ → Bool
is_identifier_char c =
    is_digit c || (leb b'A' c && leb c b'Z') || (leb b'a' c && leb c b'z') || c == b'-'

-- The longest prefix of characters that pass, and the rest.
unfoldable pub span : (ℕ → Bool) → Text → Text × Text
span p [] = ([], [])
span p (c ∷ cs) = let rest = span p cs in if p c then (c ∷ rest.0, rest.1) else ([], c ∷ cs)

abbrev cons_head : ℕ → List Text → List Text
cons_head c [] = (c ∷ []) ∷ []
cons_head c (x ∷ xs) = (c ∷ x) ∷ xs

-- `text.split(separator)`
unfoldable pub split : ℕ → Text → List Text
split s [] = [] ∷ []
split s (c ∷ cs) = let rest = split s cs in if c == s then [] ∷ rest else cons_head c rest

-- (0|[1-9]\d*)
unfoldable pub match_number : Text → Option (Text × Text)
unfolding span
match_number [] = none
match_number (c ∷ cs) =
    if c == b'0'
    then some (c ∷ [], cs)
    else if is_digit c
    then some (c ∷ (span is_digit cs).0, (span is_digit cs).1)
    else none

unfoldable pub match_char : ℕ → Text → Option Text
match_char c [] = none
match_char c (x ∷ xs) = if x == c then some xs else none

abbrev is_dotted_char : ℕ → Bool
is_dotted_char c = is_identifier_char c || c == b'.'

abbrev is_nonempty : Text → Bool
is_nonempty [] = false
is_nonempty (c ∷ cs) = true

-- [0-9A-Za-z-]+(?:\.[0-9A-Za-z-]+)*, split at the dots. What may follow it in the pattern is no
-- character of it, so the match is the longest one.
unfoldable pub match_dotted : Text → Option (List Text × Text)
unfolding span split
match_dotted t =
    let s = span is_dotted_char t in
    let parts = split b'.' s.0 in if all is_nonempty parts then some (parts, s.1) else none

-- (?:MARK(dotted))?
unfoldable pub match_suffix : ℕ → Text → Option (Option (List Text) × Text)
unfolding match_dotted
match_suffix mark [] = some (none, [])
match_suffix mark (c ∷ cs) =
    if c == mark
    then elim (match_dotted cs) [ none ↦ none | some r ↦ some (some r.0, r.1) ]
    else some (none, c ∷ cs)

pub record Semver : Type 0 where
  pub major : Text
  pub minor : Text
  pub patch : Text
  pub prerelease : Option (List Text)
  pub build : Option (List Text)

infixl 5 ◌>>=◌
abbrev pub ◌>>=◌ {ℓ κ} : {A : Type ℓ} {B : Type κ} → Option A → (A → Option B) → Option B
none >>= f = none
some a >>= f = f a

abbrev at_end : Semver → Text → Option Semver
at_end v [] = some v
at_end v (c ∷ cs) = none

-- `SEMVER.exec(value)`, with both suffixes split at the dots
unfoldable pub match_semver : Text → Option Semver
unfolding match_number match_char match_suffix
match_semver t = do
  a ← match_number t
  t₁ ← match_char b'.' a.1
  b ← match_number t₁
  t₂ ← match_char b'.' b.1
  c ← match_number t₂
  pre ← match_suffix b'-' c.1
  bld ← match_suffix b'+' pre.1
  at_end (record { major = a.0; minor = b.0; patch = c.0; prerelease = pre.0; build = bld.0 }) bld.1

-- /^\d+$/
abbrev pub is_numeric : Text → Bool
is_numeric t = is_nonempty t && all is_digit t

abbrev pub has_leading_zero : Text → Bool
has_leading_zero [] = false
has_leading_zero (c ∷ []) = false
has_leading_zero (c ∷ d ∷ ds) = c == b'0'

abbrev bad_identifier : Text → Bool
bad_identifier t = is_numeric t && has_leading_zero t

abbrev bad_prerelease : Option (List Text) → Bool
bad_prerelease none = false
bad_prerelease (some ids) = any bad_identifier ids

unfoldable pub parse_semver : Text → Option Semver
parse_semver t =
    if ltb 128 (length t)
    then none
    else do v ← match_semver t; if bad_prerelease v.prerelease then none else some v

unfoldable pub compare_numeric_identifiers : Text → Text → Ordering
unfolding text_eq lexicographic
compare_numeric_identifiers l r =
    if not (length l == length r)
    then (if ltb (length l) (length r) then Ordering.lt else Ordering.gt)
    else if text_eq l r
    then Ordering.eq
    else elim (compare_text l r) [ Ordering.lt ↦ Ordering.lt | _ ↦ Ordering.gt ]

-- One round of the loop in `comparePrerelease`; `eq` goes on to the next index.
unfoldable pub compare_identifier : Text → Text → Ordering
unfolding compare_numeric_identifiers
compare_identifier l r =
    if text_eq l r
    then Ordering.eq
    else if is_numeric l
    then (if is_numeric r then compare_numeric_identifiers l r else Ordering.lt)
    else if is_numeric r
    then Ordering.gt
    else elim (compare_text l r) [ Ordering.lt ↦ Ordering.lt | _ ↦ Ordering.gt ]

unfoldable pub compare_prerelease : Option (List Text) → Option (List Text) → Ordering
unfolding none_last lexicographic compare_identifier
compare_prerelease = none_last (lexicographic compare_identifier)

unfoldable pub compare_versions : Semver → Semver → Ordering
unfolding compare_numeric_identifiers compare_prerelease
compare_versions v w = then_by (compare_numeric_identifiers v.major w.major) (
    then_by (compare_numeric_identifiers v.minor w.minor) (
      then_by (compare_numeric_identifiers v.patch w.patch)
        (compare_prerelease v.prerelease w.prerelease)))

unfoldable pub compare_semver : Text → Text → Option Ordering
unfolding compare_versions
compare_semver l r = do v ← parse_semver l; w ← parse_semver r; some (compare_versions v w)

pub data Channel : Type 0 where
  development stable : Channel

unfoldable pub release_channel_for_version : Text → Option Channel
unfolding parse_semver
release_channel_for_version t = do
  v ← parse_semver t
  some (elim v.prerelease [ none ↦ stable | some _ ↦ development ])

abbrev is_core : Semver → Bool
is_core v = elim v.prerelease [
  | some _ ↦ false
  | none ↦ elim v.build [ some _ ↦ false | none ↦ true ]
]

unfoldable pub is_stable_core_version : Text → Bool
unfolding parse_semver
is_stable_core_version t = elim (parse_semver t) [ none ↦ false | some v ↦ is_core v ]
