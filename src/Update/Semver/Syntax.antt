-- ===== src/Update/Semver/Syntax.antt =====
-- The version syntax: `parseSemver` accepts exactly the texts that are the canonical print of a
-- well-formed version of at most 128 code units, and returns that version.
use mathlib.Core.List.{append-nil}
use mathlib.Core.Path.{subst}
use codearmory_blacksmith.Base.{
  ℕ, Text, List, [], ◌∷◌, ◌++◌, ◌≡◌, ◌≤◌, ◌↔◌, refl, Bool, true, false, not, ◌&&◌, arith, ◌==◌, all,
  Option, none, some, length, Option-cases, inl, inr,
}
use codearmory_blacksmith.Update.Semver.{
  Semver, is_digit, is_identifier_char, span, split, match_number, match_char, is_dotted_char,
  is_nonempty, match_dotted, match_suffix, match_semver, parse_semver, is_numeric, has_leading_zero,
  bad_prerelease, at_end, ◌>>=◌,
}
use codearmory_blacksmith.Update.Semver.Scan.{
  stops, join, span-append, span-all, span-eq, has_parts, join-split, lacks, split-join,
  split-has_parts, all-split, all-join,
}

abbrev pub render_suffix : ℕ → Option (List Text) → Text
render_suffix mark none = []
render_suffix mark (some ids) = mark ∷ join b'.' ids

-- MAJOR.MINOR.PATCH[-PRERELEASE][+BUILD]
unfoldable pub render_semver : Semver → Text
render_semver v =
    let suffixes = render_suffix b'-' v.prerelease ++ render_suffix b'+' v.build in
    v.major ++ (b'.' ∷ (v.minor ++ (b'.' ∷ (v.patch ++ suffixes))))

abbrev pub is_number : Text → Bool
is_number t = is_numeric t && not (has_leading_zero t)

abbrev pub is_identifier : Text → Bool
is_identifier t = is_nonempty t && all is_identifier_char t

abbrev pub IsSuffix : Option (List Text) → Type 0
IsSuffix none = Unit
IsSuffix (some ids) = (has_parts ids ≡ true) × (all is_identifier ids ≡ true)

-- The grammar of SemVer 2.0.0.
pub record IsWellFormed (v : Semver) : Type 0 where
  pub major : is_number v.major ≡ true
  pub minor : is_number v.minor ≡ true
  pub patch : is_number v.patch ≡ true
  pub prerelease : IsSuffix v.prerelease
  pub canonical : bad_prerelease v.prerelease ≡ false
  pub build : IsSuffix v.build

-- What the scanners accept.
match_number_sound :
    (t : Text) {a r : Text} → match_number t ≡ some (a, r) → (a ++ r ≡ t) × (is_number a ≡ true)
unfolding match_number
match_number_sound [] h = cc
match_number_sound (c ∷ cs) h = ground (arith, span-append is_digit cs, span-all is_digit cs)

match_char_sound : (c : ℕ) (t : Text) {r : Text} → match_char c t ≡ some r → c ∷ r ≡ t
unfolding match_char
match_char_sound c [] h = cc
match_char_sound c (x ∷ xs) h = ground arith

nonempty_parts :
    (xs : List Text)
    → all is_nonempty xs ≡ true
    → all (all is_identifier_char) xs ≡ true
    → all is_identifier xs ≡ true
nonempty_parts [] h k = refl
nonempty_parts (x ∷ xs) h k = ground (arith, nonempty_parts xs)

match_dotted_sound :
    (t : Text) {ids : List Text} {r : Text}
    → match_dotted t ≡ some (ids, r)
    → (join b'.' ids ++ r ≡ t) × (has_parts ids ≡ true) × (all is_identifier ids ≡ true)
unfolding match_dotted
match_dotted_sound t h = ground (
  arith,
  span-append is_dotted_char t,
  join-split b'.' (span is_dotted_char t).0,
  split-has_parts b'.' (span is_dotted_char t).0,
  all-split is_identifier_char b'.' (span is_dotted_char t).0 (span-all is_dotted_char t),
  nonempty_parts (split b'.' (span is_dotted_char t).0),
)

match_suffix_sound :
    (mark : ℕ) (t : Text) {o : Option (List Text)} {r : Text}
    → match_suffix mark t ≡ some (o, r)
    → (render_suffix mark o ++ r ≡ t) × IsSuffix o
unfolding match_suffix
match_suffix_sound mark [] h = ground arith
match_suffix_sound mark (c ∷ cs) h = elim (Option-cases (match_dotted cs)) [
  | inl e ↦ ground arith
  | inr (p, e) ↦ ground (arith, match_dotted_sound cs e)
]

-- What the scanners find in a text built from its parts.
match_number_complete :
    (a r : Text)
    → is_number a ≡ true
    → stops is_digit r ≡ true
    → match_number (a ++ r) ≡ some (a, r)
unfolding match_number
match_number_complete [] r h k = cc
match_number_complete (c ∷ []) r h k = ground (arith, span-eq is_digit [] r)
match_number_complete (c ∷ d ∷ ds) r h k = ground (arith, span-eq is_digit (d ∷ ds) r)

match_char_complete : (c : ℕ) (r : Text) → match_char c (c ∷ r) ≡ some r
unfolding match_char
match_char_complete c r = ground arith

identifier_parts :
    (xs : List Text)
    → all is_identifier xs ≡ true
    → (all is_nonempty xs ≡ true) × (all (all is_identifier_char) xs ≡ true)
identifier_parts [] h = (refl, refl)
identifier_parts (x ∷ xs) h = ground (arith, identifier_parts xs)

identifier-lacks : (t : Text) → all is_identifier_char t ≡ true → lacks b'.' t ≡ true
identifier-lacks [] h = refl
identifier-lacks (c ∷ cs) h = ground (arith, identifier-lacks cs)

identifiers-lack :
    (xs : List Text) → all (all is_identifier_char) xs ≡ true → all (lacks b'.') xs ≡ true
identifiers-lack [] h = refl
identifiers-lack (x ∷ xs) h = ground (arith, identifiers-lack xs, identifier-lacks x)

match_dotted_complete :
    (ids : List Text) (r : Text)
    → has_parts ids ≡ true
    → all is_identifier ids ≡ true
    → stops is_dotted_char r ≡ true
    → match_dotted (join b'.' ids ++ r) ≡ some (ids, r)
unfolding match_dotted
match_dotted_complete ids r h k l =
    let (n, c) = identifier_parts ids k in
    rw (span-eq is_dotted_char (join b'.' ids) r (all-join is_identifier_char b'.' ids c) l)
      (rw (split-join b'.' ids h (identifiers-lack ids c)) (rw n))

match_suffix_complete :
    (mark : ℕ) (o : Option (List Text)) (r : Text)
    → IsSuffix o
    → stops is_dotted_char r ≡ true
    → stops (λ c. c == mark) r ≡ true
    → match_suffix mark (render_suffix mark o ++ r) ≡ some (o, r)
unfolding match_suffix
match_suffix_complete mark none [] h k l = refl
match_suffix_complete mark none (c ∷ cs) h k l = ground arith
match_suffix_complete mark (some ids) r h k l = ground (arith, match_dotted_complete ids r h.0 h.1)

-- To follow the steps of a successful `do` block.
pub >>=-elim {ℓ κ μ} :
    {A : Type ℓ} {B : Type κ} {C : Type μ} (m : Option A) (f : A → Option B) {b : B}
    → (m >>= f) ≡ some b
    → ((a : A) → m ≡ some a → f a ≡ some b → C)
    → C
>>=-elim none f h k = absurd (ground arith)
>>=-elim (some a) f h k = k a refl h

at_end_sound : (v : Semver) (t : Text) {w : Semver} → at_end v t ≡ some w → (t ≡ []) × (v ≡ w)
at_end_sound v [] h = (refl, ground arith)
at_end_sound v (c ∷ cs) h = cc

-- The fields of a version that the pattern matched, but for the leading zeros.
record Matches (t : Text) (v : Semver) : Type 0 where
  text : render_semver v ≡ t
  major : is_number v.major ≡ true
  minor : is_number v.minor ≡ true
  patch : is_number v.patch ≡ true
  prerelease : IsSuffix v.prerelease
  build : IsSuffix v.build

matched :
    (t : Text) (a b c : Text × Text) (t₁ t₂ : Text) (p q : Option (List Text) × Text) {v : Semver}
    → (a.0 ++ a.1 ≡ t) × (is_number a.0 ≡ true)
    → b'.' ∷ t₁ ≡ a.1
    → (b.0 ++ b.1 ≡ t₁) × (is_number b.0 ≡ true)
    → b'.' ∷ t₂ ≡ b.1
    → (c.0 ++ c.1 ≡ t₂) × (is_number c.0 ≡ true)
    → (render_suffix b'-' p.0 ++ p.1 ≡ c.1) × IsSuffix p.0
    → (render_suffix b'+' q.0 ++ q.1 ≡ p.1) × IsSuffix q.0
    → (q.1 ≡ [])
      × (◌≡◌ {A = Semver}
          (record { major = a.0; minor = b.0; patch = c.0; prerelease = p.0; build = q.0 })
          v)
    → Matches t v
unfolding render_semver
matched t a b c t₁ t₂ p q sa s₁ sb s₂ sc sp sq done = subst (Matches t) done.1 (record {
  text = cc (append-nil (render_suffix b'+' q.0), sa.0, s₁, sb.0, s₂, sc.0, sp.0, sq.0, done.0);
  major = sa.1;
  minor = sb.1;
  patch = sc.1;
  prerelease = sp.1;
  build = sq.1;
})

match_semver_sound : (t : Text) {v : Semver} → match_semver t ≡ some v → Matches t v
unfolding match_semver
match_semver_sound t h = >>=-elim (match_number t) _ h λ a ea h.
    >>=-elim (match_char b'.' a.1) _ h λ t₁ e₁ h. >>=-elim (match_number t₁) _ h λ b eb h.
      >>=-elim (match_char b'.' b.1) _ h λ t₂ e₂ h. >>=-elim (match_number t₂) _ h λ c ec h.
        >>=-elim (match_suffix b'-' c.1) _ h λ p ep h.
          >>=-elim (match_suffix b'+' p.1) _ h λ q eq h.
            matched t a b c t₁ t₂ p q (match_number_sound t ea) (match_char_sound b'.' a.1 e₁)
              (match_number_sound t₁ eb) (match_char_sound b'.' b.1 e₂) (match_number_sound t₂ ec)
              (match_suffix_sound b'-' c.1 ep) (match_suffix_sound b'+' p.1 eq)
              (at_end_sound _ q.1 h)

match_suffix-end :
    (mark : ℕ) (o : Option (List Text))
    → IsSuffix o
    → match_suffix mark (render_suffix mark o) ≡ some (o, [])
match_suffix-end mark o h =
    rw (append-nil (render_suffix mark o)) at (match_suffix_complete mark o [] h refl refl)

stops-dotted : (o : Option (List Text)) → stops is_dotted_char (render_suffix b'+' o) ≡ true
stops-dotted none = refl
stops-dotted (some ids) = refl

stops-mark : (o : Option (List Text)) → stops (λ c. c == b'-') (render_suffix b'+' o) ≡ true
stops-mark none = refl
stops-mark (some ids) = refl

stops-digit : (o : Option (List Text)) → stops is_digit (render_suffix b'+' o) ≡ true
stops-digit none = refl
stops-digit (some ids) = refl

stops-digit_pre :
    (o : Option (List Text)) (r : Text)
    → stops is_digit r ≡ true
    → stops is_digit (render_suffix b'-' o ++ r) ≡ true
stops-digit_pre none r h = h
stops-digit_pre (some ids) r h = refl

match_semver_complete : (v : Semver) → IsWellFormed v → match_semver (render_semver v) ≡ some v
unfolding match_semver render_semver
match_semver_complete v w =
    let build = render_suffix b'+' v.build in
    let suffixes = render_suffix b'-' v.prerelease ++ build in
    let after_minor = b'.' ∷ (v.patch ++ suffixes) in
    rw (match_number_complete v.major (b'.' ∷ (v.minor ++ after_minor)) w.major refl) (
      rw (match_number_complete v.minor after_minor w.minor refl) (
        rw
          (match_number_complete v.patch suffixes w.patch
            (stops-digit_pre v.prerelease build (stops-digit v.build)))
          (rw
            (match_suffix_complete b'-' v.prerelease build w.prerelease (stops-dotted v.build)
              (stops-mark v.build))
            (rw (match_suffix-end b'+' v.build w.build)))))

-- Every accepted text is the print of its version, which is well formed, and fits the limit.
parse_semver_sound :
    (t : Text) {v : Semver}
    → parse_semver t ≡ some v
    → IsWellFormed v × (render_semver v ≡ t) × (length t ≤ 128)
unfolding parse_semver
parse_semver_sound t {v} h = elim (Option-cases (match_semver t)) [
  | inl e ↦ absurd (ground arith)
  | inr (w, e) ↦
      let m = match_semver_sound t e in
      let same : w ≡ v = ground arith in
      subst (λ u. IsWellFormed u × (render_semver u ≡ t) × (length t ≤ 128)) same
        (
          record {
            major = m.major;
            minor = m.minor;
            patch = m.patch;
            prerelease = m.prerelease;
            canonical = ground arith;
            build = m.build;
          },
          m.text,
          ground arith,
        )
]

parse_semver_complete :
    (t : Text) (v : Semver)
    → IsWellFormed v × (render_semver v ≡ t) × (length t ≤ 128)
    → parse_semver t ≡ some v
unfolding parse_semver
parse_semver_complete t v (w, e, short) =
    let found : match_semver t ≡ some v = rw e at (match_semver_complete v w) in
    ground (arith, w.canonical)

-- `parseSemver` accepts exactly the prints, of at most 128 code units, of well-formed versions.
pub parse_semver_iff :
    (t : Text) (v : Semver)
    → (parse_semver t ≡ some v) ↔ (IsWellFormed v × (render_semver v ≡ t) × (length t ≤ 128))
parse_semver_iff t v = (parse_semver_sound t, parse_semver_complete t v)
