-- ===== src/Update/State/Recovery.antt =====
-- A state that `encodeRecoverableState` lets through has room for what comes next.
use codearmory_blacksmith.Base.{
  ℕ, suc, ◌+◌, ◌-◌, ◌*◌, Text, codes, List, [], ◌∷◌, ◌++◌, ◌≡◌, refl, ap, Bool, true, false, not,
  ◌&&◌, text_eq, text_eq_iff, text_eq_refl, includes, strip_prefix, strip_prefix-eq, all,
  all-append, sym, arith, length, Bool-cases, inl, inr, some, length-append, leb, ◌==◌, ==_iff,
  and_true, Option-cases, ◌∙◌,
}
use codearmory_blacksmith.Json.{Value}
use codearmory_blacksmith.Update.Contract.{is_hex, is_hex_digit}
use codearmory_blacksmith.Json.Size.{
  text_size, items_size, json_size, text_size-plain, is_plain_unit,
}
use codearmory_blacksmith.Update.State.Acknowledge.{without-none}
use codearmory_blacksmith.Update.State.{
  State, without, state_after_acknowledgement, state_value, encode_bounded_state, is_bounded,
  longest_failure, acknowledgements_fit, encode_recoverable_state, state_with_failure_check, texts,
  is_digest, max_cache_state_bytes,
}

hex-plain : (r : Text) → all is_hex_digit r ≡ true → all is_plain_unit r ≡ true
hex-plain [] h = refl
hex-plain (c ∷ cs) h = ground (arith, hex-plain cs)

is_digest-parts :
    (t : Text) → is_digest t ≡ true → (r : Text) × (t ≡ codes "sha256:" ++ r) × (is_hex 64 r ≡ true)
unfolding is_digest
is_digest-parts t h = elim (Option-cases (strip_prefix (codes "sha256:") t)) [
  | inl e ↦ absurd (ground arith)
  | inr (r, e) ↦ (r, strip_prefix-eq (codes "sha256:") t e, ground arith)
]

-- A digest takes 73 bytes, its quotes included.
pub digest-text_size : (t : Text) → is_digest t ≡ true → text_size t ≡ 73
digest-text_size t h =
    let (r, e, hex) = is_digest-parts t h in
    let (len, hs) = and_true (length r == 64) (all is_hex_digit r) hex in
    rw e (
      text_size-plain (codes "sha256:" ++ r) (hex-plain r hs)
      ∙ omega (arith, (==_iff (length r) 64).0 len))

digests-items_size :
    (ts : List Text) → all is_digest ts ≡ true → items_size (texts ts) ≡ 74 * length ts
unfolding json_size
digests-items_size [] h = refl
digests-items_size (t ∷ ts) h =
    let (d, ds) = and_true (is_digest t) (all is_digest ts) h in
    omega (arith, digest-text_size t d, digests-items_size ts ds)

-- The size of a state depends on the sizes of its lists alone.
abbrev relisted : State → List Text → List Text → State
relisted s offered acknowledged = record s { offered = offered; acknowledged = acknowledged }

json_size-cong :
    (s : State) (o o' a a' : List Text)
    → items_size (texts o) ≡ items_size (texts o')
    → items_size (texts a) ≡ items_size (texts a')
    → json_size (state_value (relisted s o a)) ≡ json_size (state_value (relisted s o' a'))
unfolding json_size state_value
json_size-cong s o o' a a' h k = rw (h, k)

-- No digest twice, and none in both lists.
abbrev pub is_unique : List Text → Bool
is_unique [] = true
is_unique (x ∷ xs) = not (includes x xs) && is_unique xs

pub record IsTidy (s : State) : Type 0 where
  pub offered_digests : all is_digest s.offered ≡ true
  pub acknowledged_digests : all is_digest s.acknowledged ≡ true
  pub unique : is_unique s.offered ≡ true
  pub disjoint : all (λ d. not (includes d s.acknowledged)) s.offered ≡ true

all-includes :
    (p : Text → Bool) (t : Text) (xs : List Text)
    → all p xs ≡ true
    → includes t xs ≡ true
    → p t ≡ true
unfolding includes
all-includes p t [] h k = cc
all-includes p t (x ∷ xs) h k = ground (arith, all-includes p t xs, text_eq_iff x t)

all-without :
    (p : Text → Bool) (t : Text) (xs : List Text) → all p xs ≡ true → all p (without t xs) ≡ true
unfolding without
all-without p t [] h = refl
all-without p t (x ∷ xs) h = ground (arith, all-without p t xs)

length-without :
    (t : Text) (xs : List Text)
    → is_unique xs ≡ true
    → includes t xs ≡ true
    → suc (length (without t xs)) ≡ length xs
unfolding includes without
length-without t [] h k = cc
length-without t (x ∷ xs) h k = elim (Bool-cases (text_eq x t)) [
  | inl e ↦
      let same : x ≡ t = (text_eq_iff x t).0 e in
      let absent : includes t xs ≡ false = ground arith in
      rw e (ap (λ (ys : List Text). suc (length ys)) (without-none t xs absent))
  | inr e ↦ rw e (omega (arith, length-without t xs (ground arith) (ground arith)))
]

-- The sizes of the lists after an acknowledgement do not depend on the digest.
offered-size :
    (s : State) (t : Text)
    → IsTidy s
    → includes t s.offered ≡ true
    → items_size (texts (state_after_acknowledgement s t).offered) ≡ 74 * (length s.offered - 1)
unfolding state_after_acknowledgement
offered-size s t tidy h = omega (
  arith,
  digests-items_size (without t s.offered) (all-without is_digest t s.offered tidy.offered_digests),
  length-without t s.offered tidy.unique h,
)

acknowledged-size :
    (s : State) (t : Text)
    → IsTidy s
    → includes t s.offered ≡ true
    → items_size (texts (state_after_acknowledgement s t).acknowledged)
      ≡ 74 * (length s.acknowledged + 1)
unfolding state_after_acknowledgement
acknowledged-size s t tidy h =
    let absent = all-includes (λ d. not (includes d s.acknowledged)) t s.offered tidy.disjoint h in
    let fresh : includes t s.acknowledged ≡ false = ground arith in
    let digest = all-includes is_digest t s.offered tidy.offered_digests h in
    rw fresh (
      omega (
        arith,
        digests-items_size (s.acknowledged ++ t ∷ [])
            (rw all-append (ground (arith, tidy.acknowledged_digests))),
        length-append s.acknowledged (t ∷ []),
      ))

is_bounded_lem :
    (s : State) → is_bounded s ≡ leb (json_size (state_value s) + 1) max_cache_state_bytes
unfolding encode_bounded_state
is_bounded_lem s = ground arith

-- Whichever offered digest is acknowledged, the states are bounded alike.
module _ (s : State) (t x : Text) (tidy : IsTidy s) (h : includes t s.offered ≡ true)
    (k : includes x s.offered ≡ true) where
  offered_alike :
      items_size (texts (state_after_acknowledgement s t).offered)
      ≡ items_size (texts (state_after_acknowledgement s x).offered)
  offered_alike = offered-size s t tidy h ∙ sym (offered-size s x tidy k)

  acknowledged_alike :
      items_size (texts (state_after_acknowledgement s t).acknowledged)
      ≡ items_size (texts (state_after_acknowledgement s x).acknowledged)
  acknowledged_alike = acknowledged-size s t tidy h ∙ sym (acknowledged-size s x tidy k)

  bounded_alike :
      is_bounded (state_after_acknowledgement s t) ≡ is_bounded (state_after_acknowledgement s x)
  unfolding state_after_acknowledgement
  bounded_alike =
      rw (is_bounded_lem, is_bounded_lem (state_after_acknowledgement s x))
        (ap (λ (n : ℕ). leb (n + 1) max_cache_state_bytes)
          (json_size-cong s _ _ _ _ offered_alike acknowledged_alike))

  failure_alike :
      is_bounded (longest_failure (state_after_acknowledgement s t))
      ≡ is_bounded (longest_failure (state_after_acknowledgement s x))
  unfolding state_after_acknowledgement state_with_failure_check
  failure_alike =
      rw (is_bounded_lem, is_bounded_lem (longest_failure (state_after_acknowledgement s x)))
        (ap (λ (n : ℕ). leb (n + 1) max_cache_state_bytes)
          (json_size-cong (longest_failure s) _ _ _ _ offered_alike acknowledged_alike))

-- The checks of the loop on the first offered digest.
fit-head :
    (s : State) (x : Text) (xs : List Text)
    → acknowledgements_fit s (x ∷ xs) ≡ true
    → (is_bounded (state_after_acknowledgement s x) ≡ true)
      × (is_bounded (longest_failure (state_after_acknowledgement s x)) ≡ true)
unfolding acknowledgements_fit
fit-head s x xs h = ground arith

recoverable-fit :
    (s : State) {v : Value}
    → encode_recoverable_state s ≡ some v
    → acknowledgements_fit s s.offered ≡ true
unfolding encode_recoverable_state
recoverable-fit s h = ground arith

acknowledge-any :
    (s : State) (t : Text) (xs : List Text)
    → s.offered ≡ xs
    → IsTidy s
    → includes t xs ≡ true
    → acknowledgements_fit s xs ≡ true
    → (is_bounded (state_after_acknowledgement s t) ≡ true)
      × (is_bounded (longest_failure (state_after_acknowledgement s t)) ≡ true)
acknowledge-any s t [] e tidy h k = unfold includes in cc
acknowledge-any s t (x ∷ xs) e tidy h k =
    let first : includes x s.offered ≡ true = rw e (unfold includes in rw (text_eq_refl x)) in
    let found : includes t s.offered ≡ true = rw e h in
    let (fits, fails) = fit-head s x xs k in
    (bounded_alike s t x tidy found first ∙ fits, failure_alike s t x tidy found first ∙ fails)

-- If the digests of a state are digests, its offered ones are distinct and not acknowledged, and
-- the state was encoded, then whichever offered digest is acknowledged next, the state that follows
-- is within the size of a state, and so is that state with the longest record of a failed check.
pub encode_recoverable_state-acknowledge :
    (s : State) (v : Value) (t : Text)
    → IsTidy s
    → encode_recoverable_state s ≡ some v
    → includes t s.offered ≡ true
    → (is_bounded (state_after_acknowledgement s t) ≡ true)
      × (is_bounded (longest_failure (state_after_acknowledgement s t)) ≡ true)
encode_recoverable_state-acknowledge s v t tidy h k =
    acknowledge-any s t s.offered refl tidy k (recoverable-fit s h)
