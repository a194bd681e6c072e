-- ===== src/Base/Trim.antt =====
-- `text.trim()`: the white space and the line ends of ECMAScript off both ends of a text.
use Prim.Native.Nat.{ℕ}
use mathlib.Core.Path.{◌≡◌, refl, ap, ◌∙◌}
use mathlib.Core.Logic.{inl, inr}
use mathlib.Core.Bool.{Bool, false, ◌&&◌, ◌||◌}
use mathlib.Core.List.{[], ◌∷◌}
use native.Mathlib.Omega.{arith}
use codearmory_blacksmith.Base.Tests.{leb, ◌==◌, if◌then◌else◌, Bool-cases}
use codearmory_blacksmith.Base.Texts.{Text}

abbrev pub is_space : ℕ → Bool
is_space c =
    (leb 9 c && leb c 13)
    || c == 32
    || c == 0xa0
    || c == 0x1680
    || (leb 0x2000 c && leb c 0x200a)
    || c == 0x2028
    || c == 0x2029
    || c == 0x202f
    || c == 0x205f
    || c == 0x3000
    || c == 0xfeff

unfoldable pub trim_start : Text → Text
trim_start [] = []
trim_start (c ∷ cs) = let rest = trim_start cs in if is_space c then rest else c ∷ cs

abbrev pub cons_unless_blank : ℕ → Text → Text
cons_unless_blank c [] = if is_space c then [] else c ∷ []
cons_unless_blank c (d ∷ ds) = c ∷ d ∷ ds

unfoldable pub trim_end : Text → Text
trim_end [] = []
trim_end (c ∷ cs) = cons_unless_blank c (trim_end cs)

-- `text.trim()`
abbrev pub trim : Text → Text
unfolding trim_start trim_end
trim t = trim_end (trim_start t)

cons_unless_blank-trim_end :
    (c : ℕ) (t : Text) → trim_end t ≡ t → trim_end (cons_unless_blank c t) ≡ cons_unless_blank c t
unfolding trim_end
cons_unless_blank-trim_end c [] h = ground arith
cons_unless_blank-trim_end c (d ∷ ds) h = ap (cons_unless_blank c) h

trim_end_idem : (t : Text) → trim_end (trim_end t) ≡ trim_end t
unfolding trim_end
trim_end_idem [] = refl
trim_end_idem (c ∷ cs) = cons_unless_blank-trim_end c (trim_end cs) (trim_end_idem cs)

trim_start-cons_unless_blank :
    (c : ℕ) (t : Text)
    → is_space c ≡ false
    → trim_start (cons_unless_blank c t) ≡ cons_unless_blank c t
unfolding trim_start
trim_start-cons_unless_blank c [] h = ground arith
trim_start-cons_unless_blank c (d ∷ ds) h = rw h

trim_start-trim_end : (t : Text) → trim_start (trim_end (trim_start t)) ≡ trim_end (trim_start t)
unfolding trim_start trim_end
trim_start-trim_end [] = refl
trim_start-trim_end (c ∷ cs) = elim (Bool-cases (is_space c)) [
  | inl h ↦ rw h (trim_start-trim_end cs)
  | inr h ↦ rw h (trim_start-cons_unless_blank c (trim_end cs) h)
]

pub trim_idem : (t : Text) → trim (trim t) ≡ trim t
unfolding trim trim_end
trim_idem t = ap trim_end (trim_start-trim_end t) ∙ trim_end_idem (trim_start t)
