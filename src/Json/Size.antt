-- ===== src/Json/Size.antt =====
-- The number of bytes of `JSON.stringify(value)` in UTF-8.
use Prim.Native.Nat.{◌/◌, ◌%◌}
use codearmory_blacksmith.Base.{
  ℕ, zero, suc, ◌+◌, ◌-◌, ◌≡◌, refl, Text, codes, [], ◌∷◌, ◌++◌, Bool, true, false, ◌&&◌, ◌||◌,
  some, if◌then◌else◌, not, all, and_true, ◌≢◌, arith, leb, ltb, ◌==◌, length,
}
use codearmory_blacksmith.Json.{
  Value, Items, Fields, Number, undefined, null, bool, num, str, arr, obj, nil, cons, end, field,
}

abbrev pub is_high_surrogate : ℕ → Bool
is_high_surrogate c = leb 0xd800 c && leb c 0xdbff

abbrev pub is_low_surrogate : ℕ → Bool
is_low_surrogate c = leb 0xdc00 c && leb c 0xdfff

-- A code unit that is no part of a pair: escaped, or in one to three bytes.
abbrev unit_size : ℕ → ℕ
unit_size c =
    if c == b'"' || c == 0x5c
    then 2
    else if c == 8 || c == 9 || c == 10 || c == 12 || c == 13
    then 2
    else if ltb c 0x20
    then 6
    else if ltb c 0x80
    then 1
    else if ltb c 0x800
    then 2
    else if is_high_surrogate c || is_low_surrogate c
    then 6
    else 3

body_size : Text → ℕ
body_size [] = 0
body_size (c ∷ []) = unit_size c
body_size (c ∷ d ∷ cs) =
    let pair = 4 + body_size cs in
    let single = unit_size c + body_size (d ∷ cs) in
    if is_high_surrogate c && is_low_surrogate d then pair else single

unfoldable pub text_size : Text → ℕ
unfolding body_size
text_size t = 2 + body_size t

abbrev present : Value → ℕ → ℕ
present undefined n = 0
present _ n = n

-- The size with a comma behind each item or field; a field that is `undefined` is left out.
unfoldable mutual
  pub json_size : Value → ℕ
  json_size undefined = 4
  json_size null = 4
  json_size (bool true) = 4
  json_size (bool false) = 5
  json_size (num x) = length x.text
  json_size (str t) = text_size t
  json_size (arr xs) = 2 + (items_size xs - 1)
  json_size (obj fs) = 2 + (fields_size fs - 1)

  pub items_size : Items → ℕ
  items_size nil = 0
  items_size (cons x xs) = json_size x + 1 + items_size xs

  pub fields_size : Fields → ℕ
  fields_size end = 0
  fields_size (field k v fs) = present v (text_size k + 1 + json_size v + 1) + fields_size fs

-- `String(n)` of a natural number; the digits of `n` fit the fuel `suc n`.
unfoldable pub digits_of : ℕ → ℕ → Text
digits_of zero n = []
digits_of (suc f) n =
    let more = digits_of f (n / 10) ++ ((b'0' + n % 10) ∷ []) in
    if ltb n 10 then (b'0' + n) ∷ [] else more

unfoldable pub natural_number : ℕ → Number
unfolding digits_of
natural_number n = record { natural = some n; text = digits_of (suc n) n }

json_size_test :
    json_size (
      obj (
        field
          (codes "a")
          (num (natural_number 120))
          (field (codes "b") (arr (cons (str (codes "x\"")) (cons null nil))) end)))
    ≡ 26
unfolding json_size natural_number text_size
json_size_test = refl

-- Printable ASCII but for the quote and the backslash: one byte, not escaped.
abbrev pub is_plain_unit : ℕ → Bool
is_plain_unit c = leb 0x20 c && (ltb c 0x7f && not (c == b'"' || c == 0x5c))

plain-unit_size : (c : ℕ) → is_plain_unit c ≡ true → unit_size c ≡ 1
plain-unit_size c h =
    rw (other b'"' (ground arith), other 0x5c (ground arith))
      (rw (other 8 (ground arith), other 9 (ground arith), other 10 (ground arith))
        (rw (other 12 (ground arith), other 13 (ground arith)) (ground arith)))
  where
    other : (k : ℕ) → c ≢ k → (c == k) ≡ false
    other k ne = ground arith

plain-high : (c : ℕ) → is_plain_unit c ≡ true → is_high_surrogate c ≡ false
plain-high c h = ground arith

body_size-plain : (t : Text) → all is_plain_unit t ≡ true → body_size t ≡ length t
unfolding body_size
body_size-plain [] h = refl
body_size-plain (c ∷ []) h = plain-unit_size c (and_true (is_plain_unit c) true h).0
body_size-plain (c ∷ d ∷ cs) h =
    let (p, r) = and_true (is_plain_unit c) (all is_plain_unit (d ∷ cs)) h in
    rw (plain-unit_size c p, plain-high c p) (omega (arith, body_size-plain (d ∷ cs) r))

pub text_size-plain : (t : Text) → all is_plain_unit t ≡ true → text_size t ≡ 2 + length t
unfolding text_size
text_size-plain t h = omega (arith, body_size-plain t h)
