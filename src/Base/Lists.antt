-- ===== src/Base/Lists.antt =====
-- Lists counted by the native numbers, Boolean quantifiers over them and their laws.
use Prim.Native.Nat.{ℕ, suc, ◌+◌}
use mathlib.Core.Path.{◌≡◌, refl, ap, ◌∙◌}
use mathlib.Core.Bool.{Bool, true, false, ◌&&◌, ◌||◌}
use mathlib.Core.Logic.{◌↔◌}
use mathlib.Core.List.{List, [], ◌∷◌, ◌++◌}
use native.Mathlib.Omega.{arith}
use codearmory_blacksmith.Base.Tests.{if◌then◌else◌}

module _ {ℓ} {A : Type ℓ} where
  abbrev pub length : List A → ℕ
  length [] = 0
  length (x ∷ xs) = suc (length xs)

  abbrev pub all : (A → Bool) → List A → Bool
  all p [] = true
  all p (x ∷ xs) = p x && all p xs

  abbrev pub any : (A → Bool) → List A → Bool
  any p [] = false
  any p (x ∷ xs) = p x || any p xs

  pub length-append : (xs ys : List A) → length (xs ++ ys) ≡ length xs + length ys
  length-append [] ys = omega arith
  length-append (x ∷ xs) ys = omega (arith, length-append xs ys)

  pub all-append : (p : A → Bool) (xs ys : List A) → all p (xs ++ ys) ≡ (all p xs && all p ys)
  all-append p [] ys = refl
  all-append p (x ∷ xs) ys = ground (arith, all-append p xs ys)

  -- `xs.filter(p)`
  abbrev pub filter : (A → Bool) → List A → List A
  filter p [] = []
  filter p (x ∷ xs) = let rest = filter p xs in if p x then x ∷ rest else rest

  -- The items with their places, counted from `i`: `xs.map((x, index) => ({ index, x }))`.
  abbrev pub indexed : ℕ → List A → List (ℕ × A)
  indexed i [] = []
  indexed i (x ∷ xs) = (i, x) ∷ indexed (suc i) xs

  -- Every item has the property.
  abbrev pub Each : (A → Type 0) → List A → Type 0
  Each P [] = Unit
  Each P (x ∷ xs) = P x × Each P xs

  pub append-nil : (xs ys : List A) → xs ++ ys ≡ [] → (xs ≡ []) × (ys ≡ [])
  append-nil [] ys h = (refl, h)
  append-nil (x ∷ xs) ys h = cc

  pub append_nil_iff :
      {P Q : Type 0} (xs ys : List A) → (xs ≡ []) ↔ P → (ys ≡ []) ↔ Q → (xs ++ ys ≡ []) ↔ (P × Q)
  append_nil_iff xs ys p q = (
    λ h. let parts = append-nil xs ys h in (p.0 parts.0, q.0 parts.1),
    λ h. ap (λ zs. zs ++ ys) (p.1 h.0) ∙ q.1 h.1,
  )

module _ {ℓ κ} {A : Type ℓ} {B : Type κ} where
  -- What a loop over the items adds, one item after the other.
  abbrev pub for_each : (ℕ → A → List B) → ℕ → List A → List B
  for_each f i [] = []
  for_each f i (x ∷ xs) = f i x ++ for_each f (suc i) xs

  pub for_each_nil :
      (f : ℕ → A → List B) (P : A → Type 0)
      → ((i : ℕ) (x : A) → (f i x ≡ []) ↔ P x)
      → (i : ℕ) (xs : List A) → (for_each f i xs ≡ []) ↔ Each P xs
  for_each_nil f P law i [] = (λ h. tt, λ h. refl)
  for_each_nil f P law i (x ∷ xs) = (
    λ h.
        let parts = append-nil (f i x) (for_each f (suc i) xs) h in
        ((law i x).0 parts.0, (for_each_nil f P law (suc i) xs).0 parts.1),
    λ h.
        ap (λ ys. ys ++ for_each f (suc i) xs) ((law i x).1 h.0)
        ∙ (for_each_nil f P law (suc i) xs).1 h.1,
  )
