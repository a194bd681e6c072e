-- ===== src/Render/Measure.antt =====
-- The measuring of text: `textUnits` of renderers/shared/utils.mjs and renderers/shared/text-fit.mjs.
-- Lengths count units of 0.0001 px, as in Geometry, and font sizes count tenths of a pixel; numbers
-- are exact, the rounding of floating-point numbers is left out.
use Prim.Native.Nat.{min, max, ◌/◌}
use native.Mathlib.Nat.{le-div_iff_mul-le}
use codearmory_blacksmith.Base.{
  refl, ◌<◌, ap, ◌∙◌, ℕ, ◌+◌, ◌-◌, ◌*◌, ◌≡◌, ◌≤◌, ◌↔◌, Text, List, [], ◌∷◌, Bool, ◌&&◌, any, leb,
  ◌==◌, if◌then◌else◌, arith,
}

abbrev pub px : ℕ → ℕ
px n = n * 10000

is_lead : ℕ → Bool
is_lead c = leb 0xd800 c && leb c 0xdbff

is_trail : ℕ → Bool
is_trail c = leb 0xdc00 c && leb c 0xdfff

-- `Array.from(text)`, by code points
unfoldable pub code_points : Text → List ℕ
unfolding is_lead is_trail
code_points [] = []
code_points (c ∷ []) = c ∷ []
code_points (c ∷ d ∷ rest) =
    let pair = (0x10000 + (c - 0xd800) * 0x400 + (d - 0xdc00)) ∷ code_points rest in
    let single = c ∷ code_points (d ∷ rest) in if is_lead c && is_trail d then pair else single

-- The ranges of `FULLWIDTH_RE`.
abbrev fullwidth : List (ℕ × ℕ)
fullwidth =
    (0x1100, 0x115f)
    ∷ (0x231a, 0x231b)
    ∷ (0x2329, 0x232a)
    ∷ (0x23e9, 0x23ec)
    ∷ (0x23f0, 0x23f0)
    ∷ (0x23f3, 0x23f3)
    ∷ (0x25fd, 0x25fe)
    ∷ (0x2614, 0x2615)
    ∷ (0x2630, 0x2637)
    ∷ (0x2648, 0x2653)
    ∷ (0x267f, 0x267f)
    ∷ (0x268a, 0x268f)
    ∷ (0x2693, 0x2693)
    ∷ (0x26a1, 0x26a1)
    ∷ (0x26aa, 0x26ab)
    ∷ (0x26bd, 0x26be)
    ∷ (0x26c4, 0x26c5)
    ∷ (0x26ce, 0x26ce)
    ∷ (0x26d4, 0x26d4)
    ∷ (0x26ea, 0x26ea)
    ∷ (0x26f2, 0x26f3)
    ∷ (0x26f5, 0x26f5)
    ∷ (0x26fa, 0x26fa)
    ∷ (0x26fd, 0x26fd)
    ∷ (0x2705, 0x2705)
    ∷ (0x270a, 0x270b)
    ∷ (0x2728, 0x2728)
    ∷ (0x274c, 0x274c)
    ∷ (0x274e, 0x274e)
    ∷ (0x2753, 0x2755)
    ∷ (0x2757, 0x2757)
    ∷ (0x2795, 0x2797)
    ∷ (0x27b0, 0x27b0)
    ∷ (0x27bf, 0x27bf)
    ∷ (0x2b1b, 0x2b1c)
    ∷ (0x2b50, 0x2b50)
    ∷ (0x2b55, 0x2b55)
    ∷ (0x2e80, 0xa4cf)
    ∷ (0xa960, 0xa97c)
    ∷ (0xac00, 0xd7a3)
    ∷ (0xf900, 0xfaff)
    ∷ (0xfe10, 0xfe19)
    ∷ (0xfe30, 0xfe6f)
    ∷ (0xff01, 0xff60)
    ∷ (0xffe0, 0xffe6)
    ∷ (0x16fe0, 0x18dff)
    ∷ (0x1aff0, 0x1afff)
    ∷ (0x1b000, 0x1b2ff)
    ∷ (0x1f000, 0x1faff)
    ∷ (0x20000, 0x3fffd)
    ∷ []

unfoldable pub is_fullwidth : ℕ → Bool
is_fullwidth c = any (λ (r : ℕ × ℕ). leb r.0 c && leb c r.1) fullwidth

abbrev is_selector : ℕ → Bool
is_selector c = leb 0xfe00 c && leb c 0xfe0f

abbrev base_units : ℕ → ℕ
unfolding is_fullwidth
base_units c = if is_fullwidth c then 2 else 1

-- What a code point counts in front of the rest.
abbrev pub advance : ℕ → List ℕ → ℕ
unfolding is_fullwidth
advance c [] = if is_selector c then 0 else base_units c
advance c (next ∷ rest) =
    if is_selector c
    then 0
    else if next == 0xfe0f
    then 2
    else if next == 0xfe0e
    then 1
    else base_units c

unfoldable pub units_of : List ℕ → ℕ
unfolding is_fullwidth
units_of [] = 0
units_of (c ∷ rest) = advance c rest + units_of rest

unfoldable pub text_units : Text → ℕ
unfolding code_points units_of
text_units t = units_of (code_points t)

abbrev pub horizontal_padding : ℕ
horizontal_padding = px 8

-- An advance of 0.6 em: 600 units of length for each tenth of a pixel.
abbrev pub width_factor : ℕ
width_factor = 600

unfoldable pub fitted_node_font_size : Text → ℕ → ℕ → ℕ → ℕ
unfolding text_units
fitted_node_font_size text width preferred minimum =
    let units = max 1 (text_units text) in
    let available = max (px 1) (width - horizontal_padding) in
    max minimum (min preferred (available / (units * width_factor)))

unfoldable pub minimum_node_text_width : Text → ℕ → ℕ
unfolding text_units
minimum_node_text_width text minimum = text_units text * minimum * width_factor

unfoldable pub available_node_text_width : ℕ → ℕ
available_node_text_width width = width - horizontal_padding

reorder : (u s : ℕ) → s * (u * width_factor) ≡ u * s * width_factor
reorder u s = omega arith

largest_fitting :
    (u v available shown m p s : ℕ)
    → 1 ≤ u
    → v ≡ max 1 u
    → shown ≡ max (px 1) available
    → px 1 ≤ available
    → u * m * width_factor ≤ available
    → m ≤ s
    → s ≤ p
    → (u * s * width_factor ≤ available) ↔ (s ≤ max m (min p (shown / (v * width_factor))))
largest_fitting u v available shown m p s filled ev es wide fits low high =
    let same : v ≡ u = omega arith in
    let area : shown ≡ available = omega arith in
    let positive : 0 < v * width_factor = omega arith in
    let law = le-div_iff_mul-le {k = v * width_factor} {x = s} {y = shown} positive in
    let product : s * (v * width_factor) ≡ u * s * width_factor =
      ap (λ (k : ℕ). s * (k * width_factor)) same ∙ reorder u s in
    (λ h. ground (arith, law.1 (omega arith)), λ h. ground (arith, law.0))

-- In a box of at least 9 px that holds a text of at least one unit at its minimal size, a size from
-- the minimal to the preferred one fits exactly if it is at most the fitted one.
pub fitted_node_font_size-fits :
    (text : Text) (width preferred minimum size : ℕ)
    → 1 ≤ text_units text
    → px 9 ≤ width
    → minimum_node_text_width text minimum ≤ available_node_text_width width
    → minimum ≤ size
    → size ≤ preferred
    → (minimum_node_text_width text size ≤ available_node_text_width width)
      ↔ (size ≤ fitted_node_font_size text width preferred minimum)
unfolding fitted_node_font_size minimum_node_text_width available_node_text_width
fitted_node_font_size-fits text width preferred minimum size filled wide fits low high =
    largest_fitting (text_units text) _ _ _ minimum preferred size filled refl refl (omega arith)
      fits low high
