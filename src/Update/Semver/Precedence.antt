-- ===== src/Update/Semver/Precedence.antt =====
-- Precedence of versions is a total order.
use Prim.Native.Nat.{compare, Ordering}
use mathlib.Core.Option
use codearmory_blacksmith.Base.{
  Text, List, ◌≡◌, refl, ◌∙◌, ap, ◌↔◌, arith, length, text_eq_iff, Option, none, some,
}
use codearmory_blacksmith.Base.Order.{
  compare_text, IsTotalOrder, compare-IsTotalOrder, lexicographic-IsTotalOrder,
  none_last-IsTotalOrder, flip, then_by, by_parts, by_parts-IsTotalOrder,
}
use codearmory_blacksmith.Update.Semver.{
  compare_numeric_identifiers, compare_identifier, compare_prerelease, Semver, compare_versions,
  parse_semver, compare_semver, ◌>>=◌,
}

text_order : IsTotalOrder compare_text
text_order = lexicographic-IsTotalOrder compare-IsTotalOrder

-- The shorter identifier first, then the order of texts.
pub numeric_lem :
    (l r : Text)
    → compare_numeric_identifiers l r ≡ then_by (compare (length l) (length r)) (compare_text l r)
unfolding compare_numeric_identifiers
numeric_lem l r = ground (arith, text_eq_iff l r, text_order.equal l r, text_order.same l)

numeric-IsTotalOrder : IsTotalOrder compare_numeric_identifiers
numeric-IsTotalOrder = record {
  equal = λ a b h. ground (arith, numeric_lem a b, text_order.equal a b);
  same = λ a. ground (arith, numeric_lem a a, text_order.same a);
  swap = λ a b. ground (arith, numeric_lem a b, numeric_lem b a, text_order.swap a b);
  trans = λ a b c h k.
      ground (arith, numeric_lem a b, numeric_lem b c, numeric_lem a c, text_order.trans a b c);
}

identifier-IsTotalOrder : IsTotalOrder compare_identifier
unfolding compare_identifier
identifier-IsTotalOrder = record {
  equal = λ a b h. ground (arith, text_eq_iff a b, numeric-IsTotalOrder.equal a b);
  same = λ a. ground (arith, text_eq_iff a a);
  swap = λ a b. ground (
    arith,
    text_eq_iff a b,
    text_eq_iff b a,
    numeric-IsTotalOrder.swap a b,
    text_order.swap a b,
    text_order.equal a b,
  );
  trans = λ a b c h k. ground (
    arith,
    text_eq_iff a b,
    text_eq_iff b c,
    text_eq_iff a c,
    numeric-IsTotalOrder.trans a b c,
    text_order.trans a b c,
    text_order.equal a b,
    numeric-IsTotalOrder.swap a b,
    text_order.swap a b,
  );
}

prerelease-IsTotalOrder : IsTotalOrder compare_prerelease
unfolding compare_prerelease
prerelease-IsTotalOrder =
    none_last-IsTotalOrder (lexicographic-IsTotalOrder identifier-IsTotalOrder)

-- What precedence reads of a version.
abbrev pub Key : Type 0
Key = Text × (Text × (Text × Option (List Text)))

abbrev pub key : Semver → Key
key v = (v.major, (v.minor, (v.patch, v.prerelease)))

abbrev compare_keys : Key → Key → Ordering
compare_keys =
    by_parts compare_numeric_identifiers (
      by_parts compare_numeric_identifiers
        (by_parts compare_numeric_identifiers compare_prerelease))

keys-IsTotalOrder : IsTotalOrder compare_keys
keys-IsTotalOrder = by_parts-IsTotalOrder numeric-IsTotalOrder (
    by_parts-IsTotalOrder numeric-IsTotalOrder
      (by_parts-IsTotalOrder numeric-IsTotalOrder prerelease-IsTotalOrder))

versions_lem : (v w : Semver) → compare_versions v w ≡ compare_keys (key v) (key w)
unfolding compare_versions
versions_lem v w = refl

versions-same : (v w : Semver) → key v ≡ key w → compare_versions v w ≡ Ordering.eq
versions-same v w h =
    versions_lem v w ∙ ap (λ (k : Key). compare_keys k (key w)) h ∙ keys-IsTotalOrder.same (key w)

-- `compareSemver` behind its two calls of `parseSemver`
abbrev compare_parsed : Option Semver → Option Semver → Option Ordering
compare_parsed p q = p >>= λ v. q >>= λ w. some (compare_versions v w)

parsed-swap : (p q : Option Semver) → compare_parsed q p ≡ Option.map flip (compare_parsed p q)
parsed-swap none none = refl
parsed-swap none (some w) = refl
parsed-swap (some v) none = refl
parsed-swap (some v) (some w) =
    rw (versions_lem v w, versions_lem w v) (ap some (keys-IsTotalOrder.swap (key v) (key w)))

parsed_trans :
    (p q r : Option Semver)
    → compare_parsed p q ≡ some Ordering.lt
    → compare_parsed q r ≡ some Ordering.lt
    → compare_parsed p r ≡ some Ordering.lt
parsed_trans none q r h k = cc
parsed_trans (some u) none r h k = cc
parsed_trans (some u) (some v) none h k = cc
parsed_trans (some u) (some v) (some w) h k = ground (
  arith,
  versions_lem u v,
  versions_lem v w,
  versions_lem u w,
  keys-IsTotalOrder.trans (key u) (key v) (key w),
)

-- Both texts are versions, and they differ in their build metadata alone.
abbrev pub HasSamePrecedence : Option Semver → Option Semver → Type 0
HasSamePrecedence (some v) (some w) = key v ≡ key w
HasSamePrecedence _ _ = ⊥

parsed-eq : (p q : Option Semver) → (compare_parsed p q ≡ some Ordering.eq) ↔ HasSamePrecedence p q
parsed-eq none q = (λ h. cc, λ h. absurd h)
parsed-eq (some v) none = (λ h. cc, λ h. absurd h)
parsed-eq (some v) (some w) = (
  λ h. keys-IsTotalOrder.equal (key v) (key w) (ground (arith, versions_lem v w)),
  λ h. ap some (versions-same v w h),
)

-- Exchanging the two versions reverses the answer, and an invalid text fails on either side.
compare_semver-swap : (a b : Text) → compare_semver b a ≡ Option.map flip (compare_semver a b)
unfolding compare_semver
compare_semver-swap a b = parsed-swap (parse_semver a) (parse_semver b)

-- "Older than" is transitive.
compare_semver_trans :
    (a b c : Text)
    → compare_semver a b ≡ some Ordering.lt
    → compare_semver b c ≡ some Ordering.lt
    → compare_semver a c ≡ some Ordering.lt
unfolding compare_semver
compare_semver_trans a b c = parsed_trans (parse_semver a) (parse_semver b) (parse_semver c)

-- Two texts compare equal exactly if both are versions that differ in build metadata alone.
compare_semver-eq :
    (a b : Text)
    → (compare_semver a b ≡ some Ordering.eq) ↔ HasSamePrecedence (parse_semver a) (parse_semver b)
unfolding compare_semver
compare_semver-eq a b = parsed-eq (parse_semver a) (parse_semver b)
