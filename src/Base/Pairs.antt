-- ===== src/Base/Pairs.antt =====
-- What holds of every item of a list, and of every two.
use mathlib.Core.Path.{◌≡◌, refl, ap}
use mathlib.Core.Logic.{◌↔◌, inl, inr}
use mathlib.Core.Bool.{true}
use native.Mathlib.Omega.{arith}
use mathlib.Core.List.{List, [], ◌∷◌, ◌++◌, map}
use codearmory_blacksmith.Base.Lists.{Each}
use codearmory_blacksmith.Base.Tests.{Bool-cases}
use codearmory_blacksmith.Base.Texts.{Text, text_eq, text_eq_iff, text_eq_refl, includes}

-- Every item is related to those behind it.
abbrev pub Pairwise : {A : Type 0} → (A → A → Type 0) → List A → Type 0
Pairwise R [] = Unit
Pairwise R (x ∷ xs) = Each (R x) xs × Pairwise R xs

pub Each-append :
    {A : Type 0} (P : A → Type 0) (xs ys : List A) → Each P xs → Each P ys → Each P (xs ++ ys)
Each-append P [] ys h k = k
Each-append P (x ∷ xs) ys h k = (h.0, Each-append P xs ys h.1 k)

pub Each-map :
    {A : Type 0} {P Q : A → Type 0} (xs : List A) → ((x : A) → P x → Q x) → Each P xs → Each Q xs
Each-map [] f h = tt
Each-map (x ∷ xs) f h = (f x h.0, Each-map xs f h.1)

pub Each-both :
    {A : Type 0} {P Q R : A → Type 0} (xs : List A)
    → ((x : A) → P x → Q x → R x)
    → Each P xs
    → Each Q xs
    → Each R xs
Each-both [] f h k = tt
Each-both (x ∷ xs) f h k = (f x h.0 k.0, Each-both xs f h.1 k.1)

pub Pairwise-append :
    {A : Type 0} (R : A → A → Type 0) (xs ys : List A)
    → Pairwise R xs
    → Pairwise R ys
    → Each (λ x. Each (R x) ys) xs
    → Pairwise R (xs ++ ys)
Pairwise-append R [] ys h k across = k
Pairwise-append R (x ∷ xs) ys h k across =
    (Each-append (R x) xs ys h.0 across.0, Pairwise-append R xs ys h.1 k across.1)

pub map-append :
    {A B : Type 0} (f : A → B) (xs ys : List A) → map f (xs ++ ys) ≡ map f xs ++ map f ys
map-append f [] ys = refl
map-append f (x ∷ xs) ys = ap (λ zs. f x ∷ zs) (map-append f xs ys)

pub Each-within :
    {A : Type 0} {P Q R : A → Type 0} (xs : List A)
    → Each R xs
    → ((x : A) → R x → P x ↔ Q x)
    → Each P xs ↔ Each Q xs
Each-within xs rs law = (Each-both xs (λ x r. (law x r).0) rs, Each-both xs (λ x r. (law x r).1) rs)

pub Each-includes :
    (P : Text → Type 0) (xs : List Text) → Each P xs ↔ ((x : Text) → includes x xs ≡ true → P x)
unfolding includes
Each-includes P [] = (λ h x k. cc, λ h. tt)
Each-includes P (x ∷ xs) = (
  λ h y k. elim (Bool-cases (text_eq x y)) [
    | inl same ↦ rw (← (text_eq_iff x y).0 same) h.0
    | inr other ↦ (Each-includes P xs).0 h.1 y (ground arith)
  ],
  λ h. (h x (ground (arith, text_eq_refl x)), (Each-includes P xs).1 (λ y k. h y (ground arith))),
)

pub Each-append_iff :
    {A : Type 0} (P : A → Type 0) (xs ys : List A) → Each P (xs ++ ys) ↔ (Each P xs × Each P ys)
Each-append_iff P [] ys = (λ h. (tt, h), λ h. h.1)
Each-append_iff P (x ∷ xs) ys =
    let law = Each-append_iff P xs ys in
    (λ h. ((h.0, (law.0 h.1).0), (law.0 h.1).1), λ h. (h.0.0, law.1 (h.0.1, h.1)))
