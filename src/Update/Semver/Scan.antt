-- ===== src/Update/Semver/Scan.antt =====
-- The scanners of the version syntax: what each consumes, and what it finds in a text built from
-- its parts.
use codearmory_blacksmith.Base.{
  ℕ, Text, List, [], ◌∷◌, ◌++◌, ◌≡◌, refl, ap, Bool, true, false, not, ◌||◌, arith, all-append,
  ◌==◌, all,
}
use codearmory_blacksmith.Update.Semver.{span, split, cons_head}

-- Nothing more can be consumed.
abbrev pub stops : (ℕ → Bool) → Text → Bool
stops p [] = true
stops p (c ∷ cs) = not (p c)

-- `parts.join(separator)`
unfoldable pub join : ℕ → List Text → Text
join s [] = []
join s (x ∷ []) = x
join s (x ∷ y ∷ rest) = x ++ s ∷ join s (y ∷ rest)

pub span-append : (p : ℕ → Bool) (t : Text) → (span p t).0 ++ (span p t).1 ≡ t
unfolding span
span-append p [] = refl
span-append p (c ∷ cs) = ground (arith, span-append p cs)

pub span-all : (p : ℕ → Bool) (t : Text) → all p (span p t).0 ≡ true
unfolding span
span-all p [] = refl
span-all p (c ∷ cs) = ground (arith, span-all p cs)

pub span-eq :
    (p : ℕ → Bool) (a r : Text) → all p a ≡ true → stops p r ≡ true → span p (a ++ r) ≡ (a, r)
unfolding span
span-eq p [] [] h k = refl
span-eq p [] (c ∷ cs) h k = ground arith
span-eq p (x ∷ a) r h k = ground (arith, span-eq p a r)

join-cons_head : (s c : ℕ) (xs : List Text) → join s (cons_head c xs) ≡ c ∷ join s xs
unfolding join
join-cons_head s c [] = refl
join-cons_head s c (x ∷ []) = refl
join-cons_head s c (x ∷ y ∷ r) = refl

abbrev pub has_parts : List Text → Bool
has_parts [] = false
has_parts (x ∷ xs) = true

pub split-has_parts : (s : ℕ) (t : Text) → has_parts (split s t) ≡ true
unfolding split
split-has_parts s [] = refl
split-has_parts s (c ∷ cs) = ground (arith, split-has_parts s cs)

join-nil_cons : (s : ℕ) (xs : List Text) → has_parts xs ≡ true → join s ([] ∷ xs) ≡ s ∷ join s xs
unfolding join
join-nil_cons s [] h = cc
join-nil_cons s (x ∷ xs) h = refl

-- Joining what was split gives the text back.
pub join-split : (s : ℕ) (t : Text) → join s (split s t) ≡ t
unfolding split
join-split s [] = unfold join in refl
join-split s (c ∷ cs) = ground (
  arith,
  join-split s cs,
  join-nil_cons s (split s cs) (split-has_parts s cs),
  join-cons_head s c (split s cs),
)

-- Splitting what was joined gives the parts back, if none of them holds the separator.
abbrev pub lacks : ℕ → Text → Bool
lacks s t = all (λ c. not (c == s)) t

split-lacks : (s : ℕ) (x : Text) → lacks s x ≡ true → split s x ≡ x ∷ []
unfolding split
split-lacks s [] h = refl
split-lacks s (c ∷ cs) h = ground (arith, split-lacks s cs)

split-append :
    (s : ℕ) (x rest : Text) → lacks s x ≡ true → split s (x ++ s ∷ rest) ≡ x ∷ split s rest
unfolding split
split-append s [] rest h = ground arith
split-append s (c ∷ cs) rest h = ground (arith, split-append s cs rest)

pub split-join :
    (s : ℕ) (xs : List Text)
    → has_parts xs ≡ true
    → all (lacks s) xs ≡ true
    → split s (join s xs) ≡ xs
unfolding join
split-join s [] h k = cc
split-join s (x ∷ []) h k = split-lacks s x (ground arith)
split-join s (x ∷ y ∷ rest) h k =
    rw (split-append s x (join s (y ∷ rest)) (ground arith))
      (ap (x ∷◌) (split-join s (y ∷ rest) refl (ground arith)))

all-cons_head :
    (p : ℕ → Bool) (c : ℕ) (xs : List Text)
    → p c ≡ true
    → all (all p) xs ≡ true
    → all (all p) (cons_head c xs) ≡ true
all-cons_head p c [] h k = ground arith
all-cons_head p c (x ∷ xs) h k = ground arith

-- The parts between the separators hold the other characters alone.
pub all-split :
    (p : ℕ → Bool) (s : ℕ) (t : Text)
    → all (λ c. p c || c == s) t ≡ true
    → all (all p) (split s t) ≡ true
unfolding split
all-split p s [] h = refl
all-split p s (c ∷ cs) h = ground (arith, all-split p s cs, all-cons_head p c (split s cs))

all-weaken : (p : ℕ → Bool) (s : ℕ) (t : Text) → all p t ≡ true → all (λ c. p c || c == s) t ≡ true
all-weaken p s [] h = refl
all-weaken p s (c ∷ cs) h = ground (arith, all-weaken p s cs)

-- A join of such parts holds them and the separator.
pub all-join :
    (p : ℕ → Bool) (s : ℕ) (xs : List Text)
    → all (all p) xs ≡ true
    → all (λ c. p c || c == s) (join s xs) ≡ true
unfolding join
all-join p s [] h = refl
all-join p s (x ∷ []) h = all-weaken p s x (ground arith)
all-join p s (x ∷ y ∷ rest) h = ground (
  arith,
  all-append (λ c. p c || c == s) x (s ∷ join s (y ∷ rest)),
  all-weaken p s x,
  all-join p s (y ∷ rest),
)
