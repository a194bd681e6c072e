-- ===== src/Render/Consistent.antt =====
-- When the members of a security group share one region: `is_consistent` without its set.
use codearmory_blacksmith.Base.{
  ℕ, ◌≡◌, ◌↔◌, refl, sym, ap, ◌∙◌, List, [], ◌∷◌, Bool, true, not, ◌&&◌, ltb, ◌==◌, ==_iff, length,
  all, filter, Each, arith, Bool-cases, inl, inr,
}
use codearmory_blacksmith.Render.Profile.{
  Boundary, distinct_numbers, indexes, region_indexes, is_consistent,
}

filter_twice : {A : Type 0} (p : A → Bool) (xs : List A) → filter p (filter p xs) ≡ filter p xs
filter_twice p [] = refl
filter_twice p (x ∷ xs) = ground (arith, filter_twice p xs)

-- The numbers of a list are all the first one exactly if its set has one element.
all_distinct :
    (n : ℕ) (ns : List ℕ)
    → (filter (λ m. not (m == n)) (distinct_numbers ns) ≡ []) ↔ (all (λ m. m == n) ns ≡ true)
all_distinct n [] = (λ h. refl, λ h. refl)
all_distinct n (m ∷ ns) =
    let without = λ (k : ℕ) (xs : List ℕ). filter (λ m. not (m == k)) xs in
    elim (Bool-cases (m == n)) [
      | inl e ↦
          let same =
            ap (λ k. without n (without k (distinct_numbers ns))) ((==_iff m n).0 e)
            ∙ filter_twice (λ m. not (m == n)) (distinct_numbers ns) in
          let law = all_distinct n ns in rw e (λ h. law.0 (sym same ∙ h), λ h. same ∙ law.1 h)
      | inr e ↦ rw e (λ h. cc, λ h. cc)
    ]

cons-injective : {m n : ℕ} → (m ∷ []) ≡ (n ∷ []) → m ≡ n
cons-injective e = cc

all_single :
    (r : ℕ) (ms : List (List (ℕ × Boundary)))
    → ((all (λ (ps : List (ℕ × Boundary)). length ps == 1) ms
          && all (λ m. m == r) (region_indexes ms))
        ≡ true)
      ↔ Each (λ ps. indexes ps ≡ r ∷ []) ms
all_single r [] = (λ h. tt, λ h. refl)
all_single r ([] ∷ ms) = (λ h. cc, λ h. cc)
all_single r ((p ∷ []) ∷ ms) =
    let law = all_single r ms in
    (
      λ h. (ap (λ n. n ∷ []) (same_head h), law.0 (drop_head h)),
      λ h. keep_head (cons-injective h.0) (law.1 h.1),
    )
  where
    lengths : Bool
    lengths = all (λ (ps : List (ℕ × Boundary)). length ps == 1) ms

    same : Bool
    same = all (λ m. m == r) (region_indexes ms)

    same_head : (lengths && ((p.0 == r) && same)) ≡ true → p.0 ≡ r
    same_head h = ground arith

    drop_head : (lengths && ((p.0 == r) && same)) ≡ true → (lengths && same) ≡ true
    drop_head h = ground arith

    keep_head : p.0 ≡ r → (lengths && same) ≡ true → (lengths && ((p.0 == r) && same)) ≡ true
    keep_head e h = ground arith
all_single r ((p ∷ q ∷ ps) ∷ ms) = (λ h. ground arith, λ h. cc)

length_nil : {A : Type 0} (xs : List A) → (length xs == 0) ≡ true → xs ≡ []
length_nil [] h = refl
length_nil (x ∷ xs) h = ground arith

pub is_consistent_iff :
    (ms : List (List (ℕ × Boundary)))
    → (is_consistent ms ≡ true)
      ↔ (ltb 0 (length ms) ≡ true) × ((r : ℕ) × Each (λ ps. indexes ps ≡ r ∷ []) ms)
is_consistent_iff [] = (λ h. cc, λ h. cc)
is_consistent_iff ([] ∷ ms) = (λ h. ground arith, λ h. cc)
is_consistent_iff ((p ∷ []) ∷ ms) = (
  λ h. (ground arith, (p.0, (refl, (all_single p.0 ms).0 (alike h)))),
  λ h.
      let moved = ap (λ r. lengths && same r) (cons-injective h.1.1.0) in
      agreed (moved ∙ (all_single h.1.0 ms).1 h.1.1.1),
)
  where
    lengths : Bool
    lengths = all (λ (ps : List (ℕ × Boundary)). length ps == 1) ms

    same : ℕ → Bool
    same r = all (λ m. m == r) (region_indexes ms)

    others : List ℕ
    others = filter (λ m. not (m == p.0)) (distinct_numbers (region_indexes ms))

    no_others : (length others == 0) ≡ true → others ≡ []
    no_others h = length_nil others h

    alike : is_consistent ((p ∷ []) ∷ ms) ≡ true → (lengths && same p.0) ≡ true
    alike h =
        let none_other = no_others (ground arith) in
        ground (arith, (all_distinct p.0 (region_indexes ms)).0 none_other)

    agreed : (lengths && same p.0) ≡ true → is_consistent ((p ∷ []) ∷ ms) ≡ true
    agreed h =
        let none_other = (all_distinct p.0 (region_indexes ms)).1 (ground arith) in
        ground (arith, ap (λ ns. length ns) none_other)
is_consistent_iff ((p ∷ q ∷ ps) ∷ ms) = (λ h. ground arith, λ h. cc)
