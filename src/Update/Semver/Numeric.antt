-- ===== src/Update/Semver/Numeric.antt =====
-- Numeric identifiers are compared as texts, and yet by their values.
use Prim.Native.Nat.{compare}
use native.Mathlib.Nat.{pow-suc, mul-le-mul, le_refl}
use codearmory_blacksmith.Base.{
  ℕ, zero, suc, ◌+◌, ◌-◌, ◌*◌, ◌^◌, ◌≤◌, ◌<◌, Text, [], ◌∷◌, ◌≡◌, refl, true, arith, all, and_true,
  length, leb,
}
use codearmory_blacksmith.Base.Order.{compare_text, lexicographic}
use codearmory_blacksmith.Update.Semver.{is_digit, compare_numeric_identifiers}
use codearmory_blacksmith.Update.Semver.Precedence.{numeric_lem}
use codearmory_blacksmith.Update.Semver.Syntax.{is_number}

-- The number that digits stand for, behind the digits of `n`.
unfoldable pub decimal : ℕ → Text → ℕ
decimal n [] = n
decimal n (c ∷ cs) = decimal (n * 10 + (c - b'0')) cs

decimal-cons : (n c : ℕ) (cs : Text) → decimal n (c ∷ cs) ≡ decimal (n * 10 + (c - b'0')) cs
unfolding decimal
decimal-cons n c cs = refl

shift : (n : ℕ) (t : Text) → decimal n t ≡ n * 10 ^ length t + decimal 0 t
shift n [] = unfold decimal in omega arith
shift n (c ∷ cs) =
    rw
      (
        decimal-cons n,
        decimal-cons 0,
        pow-suc,
        shift (n * 10 + (c - b'0')) cs,
        shift (0 * 10 + (c - b'0')) cs,
      )
      (omega arith)

-- The leading digit, and the others.
decimal-head : (c : ℕ) (cs : Text) → decimal 0 (c ∷ cs) ≡ (c - b'0') * 10 ^ length cs + decimal 0 cs
decimal-head c cs = rw (decimal-cons 0, shift (0 * 10 + (c - b'0')) cs) (omega arith)

-- A number in a lower block of `p` numbers is below one in a higher block.
block-lt : (a b p x y : ℕ) → a < b → x < p → a * p + x < b * p + y
block-lt a b p x y h k = let step : suc a * p ≤ b * p = mul-le-mul h (le_refl _) in omega arith

digit-lt : (c : ℕ) → is_digit c ≡ true → c - b'0' < 10
digit-lt c h = ground arith

decimal-lt : (t : Text) → all is_digit t ≡ true → decimal 0 t < 10 ^ length t
decimal-lt [] h = unfold decimal in omega arith
decimal-lt (c ∷ cs) h =
    let (d, ds) = and_true (is_digit c) (all is_digit cs) h in
    rw (decimal-head, pow-suc)
      (omega (
        arith,
        block-lt (c - b'0') 10 (10 ^ length cs) (decimal 0 cs) 0 (digit-lt c d) (decimal-lt cs ds),
      ))

one_le_pow : (n : ℕ) → 1 ≤ 10 ^ n
one_le_pow zero = omega arith
one_le_pow (suc n) = rw pow-suc (omega (arith, one_le_pow n))

pow_mono : (m n : ℕ) → m ≤ n → 10 ^ m ≤ 10 ^ n
pow_mono zero n h = one_le_pow n
pow_mono (suc m) zero h = absurd (omega arith)
pow_mono (suc m) (suc n) h = rw (pow-suc, pow-suc) (omega (arith, pow_mono m n))

-- A longer number with no leading zero is greater.
pow-le-decimal : (c : ℕ) (cs : Text) → leb b'1' c ≡ true → 10 ^ length cs ≤ decimal 0 (c ∷ cs)
pow-le-decimal c cs h = rw decimal-head (
    let step : 1 * 10 ^ length cs ≤ (c - b'0') * 10 ^ length cs =
      mul-le-mul (ground arith) (le_refl _) in
    omega arith)

decimal-lex :
    (l r : Text)
    → length l ≡ length r
    → all is_digit l ≡ true
    → all is_digit r ≡ true
    → compare_text l r ≡ compare (decimal 0 l) (decimal 0 r)
unfolding lexicographic
decimal-lex [] [] e h k = unfold decimal in refl
decimal-lex [] (d ∷ r) e h k = absurd (omega arith)
decimal-lex (c ∷ l) [] e h k = absurd (omega arith)
decimal-lex (c ∷ l) (d ∷ r) e h k =
    let (hc, hl) = and_true (is_digit c) (all is_digit l) h in
    let (hd, hr) = and_true (is_digit d) (all is_digit r) k in
    let same : length l ≡ length r = omega arith in
    let ih = decimal-lex l r same hl hr in
    let bl = decimal-lt l hl in
    let br : decimal 0 r < 10 ^ length l = rw same (decimal-lt r hr) in
    let low = block-lt (c - b'0') (d - b'0') (10 ^ length l) (decimal 0 l) (decimal 0 r) in
    let high = block-lt (d - b'0') (c - b'0') (10 ^ length l) (decimal 0 r) (decimal 0 l) in
    rw (decimal-head c l, decimal-head d r, ← same) (ground (arith, ih, low, high))

-- Of two numbers with no leading zero the longer one is greater.
decimal-longer :
    (l r : Text)
    → is_number l ≡ true
    → is_number r ≡ true
    → length l < length r
    → decimal 0 l < decimal 0 r
decimal-longer [] r h k lt = cc
decimal-longer (c ∷ l) [] h k lt = absurd (omega arith)
decimal-longer (c ∷ l) (d ∷ []) h k lt = absurd (omega arith)
decimal-longer (c ∷ l) (d ∷ e ∷ r) h k lt = omega (
  arith,
  decimal-lt (c ∷ l) (ground arith),
  pow_mono (length (c ∷ l)) (length (e ∷ r)),
  pow-le-decimal d (e ∷ r) (ground arith),
)

-- Two numeric identifiers with no leading zero are ordered as the numbers that they stand for.
pub compare_numeric_identifiers-decimal :
    (l r : Text)
    → is_number l ≡ true
    → is_number r ≡ true
    → compare_numeric_identifiers l r ≡ compare (decimal 0 l) (decimal 0 r)
compare_numeric_identifiers-decimal l r h k =
    rw numeric_lem (ground (arith, decimal-longer l r h k, decimal-longer r l k h, decimal-lex l r))
