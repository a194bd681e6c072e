-- ===== src/Update/Operations/Names.antt =====
-- `operationName` and `parseOperationName`: the name of a directory tells its kind and generation.
use Prim.Native.Nat.{◌/◌, ◌%◌}
use native.Mathlib.Nat.{pow-suc}
use codearmory_blacksmith.Base.{
  ℕ, zero, suc, ◌+◌, ◌-◌, ◌*◌, ◌^◌, ◌≡◌, ◌≤◌, ◌<◌, refl, ap, ◌∙◌, Text, codes, List, [], ◌∷◌, ◌++◌,
  true, ◌&&◌, Option, none, some, if◌then◌else◌, leb, ltb, length, all, all-append, length-append,
  strip_prefix, arith, if_elim,
}
use codearmory_blacksmith.Json.Size.{digits_of, natural_number}
use codearmory_blacksmith.Update.Semver.{is_digit}
use codearmory_blacksmith.Update.Semver.Numeric.{decimal}
use codearmory_blacksmith.Update.Operations.{Kind, reserved, pending, committed, fenced, cancelled}

pub record Operation : Type 0 where
  pub kind : Kind
  pub generation : ℕ

abbrev pub kind_prefix : Kind → Text
kind_prefix reserved = codes "reserved-"
kind_prefix pending = codes "pending-"
kind_prefix committed = codes "committed-"
kind_prefix fenced = codes "fenced-"
kind_prefix cancelled = codes "cancelled-"

-- `text.padStart(length, '0')`, `n` being what is missing
abbrev pub zeros : ℕ → Text → Text
zeros zero t = t
zeros (suc n) t = b'0' ∷ zeros n t

unfoldable pub operation_name : Kind → ℕ → Text
unfolding natural_number
operation_name kind generation =
    let digits = (natural_number generation).text in
    kind_prefix kind ++ zeros (20 - length digits) digits

-- (\d{1,20})$
abbrev pub parse_generation : Kind → Text → Option Operation
unfolding decimal
parse_generation kind digits =
    if all is_digit digits && leb 1 (length digits) && leb (length digits) 20
    then some (record { kind = kind; generation = decimal 0 digits })
    else none

abbrev pub parse_kinds : List Kind → Text → Option Operation
unfolding decimal
parse_kinds [] name = none
parse_kinds (kind ∷ rest) name =
    let others = parse_kinds rest name in
    elim (strip_prefix (kind_prefix kind) name) [
      | none ↦ others
      | some digits ↦ parse_generation kind digits
    ]

unfoldable pub parse_operation_name : Text → Option Operation
unfolding decimal
parse_operation_name name =
    parse_kinds (reserved ∷ pending ∷ committed ∷ fenced ∷ cancelled ∷ []) name

parse_prefixed :
    (kind : Kind) (t : Text)
    → parse_operation_name (kind_prefix kind ++ t) ≡ parse_generation kind t
unfolding parse_operation_name
parse_prefixed reserved t = refl
parse_prefixed pending t = refl
parse_prefixed committed t = refl
parse_prefixed fenced t = refl
parse_prefixed cancelled t = refl

decimal-append : (n c : ℕ) (t : Text) → decimal n (t ++ c ∷ []) ≡ decimal n t * 10 + (c - b'0')
unfolding decimal
decimal-append n c [] = refl
decimal-append n c (d ∷ t) = decimal-append (n * 10 + (d - b'0')) c t

-- What the digits of a number are: digits, no more than its size allows, that stand for it.
abbrev AreDigits : ℕ → Text → Type 0
unfolding decimal
AreDigits n t =
    (all is_digit t ≡ true)
    × ((1 ≤ length t) × ((decimal 0 t ≡ n) × ((k : ℕ) → 1 ≤ k → n < 10 ^ k → length t ≤ k)))

-- A number of at least two digits has one digit more than its tenth.
one_less :
    (n k l : ℕ)
    → 10 ≤ n
    → 1 ≤ k
    → n < 10 ^ k
    → ((j : ℕ) → 1 ≤ j → n / 10 < 10 ^ j → l ≤ j)
    → l + 1 ≤ k
one_less n zero l two one below short = omega arith
one_less n (suc zero) l two one below short = omega arith
one_less n (suc (suc j)) l two one below short =
    let power : n < 10 ^ suc j * 10 = rw (← pow-suc 10 (suc j)) below in
    let rest = short (suc j) (omega arith) (omega arith) in omega arith

digits_of-AreDigits : (f n : ℕ) → n < f → AreDigits n (digits_of f n)
unfolding digits_of decimal
digits_of-AreDigits zero n h = elim (no_fuel n h) [ ]
  where
    no_fuel : (n : ℕ) → n < 0 → ⊥
    no_fuel n h = omega arith
digits_of-AreDigits (suc f) n h =
    if_elim (AreDigits n) (ltb n 10) _ _
      (λ low. (ground arith, (omega arith, (omega arith, λ k filled below. filled))))
      (λ high.
        let (ds, (filled, (value, short))) = digits_of-AreDigits f (n / 10) (ground arith) in
        let t = digits_of f (n / 10) in
        let c = b'0' + n % 10 in
        let longer : length (t ++ c ∷ []) ≡ length t + 1 = length-append t (c ∷ []) in
        (
          ground (arith, all-append is_digit t (c ∷ []), ds),
          (
            omega (arith, longer),
            (
              omega (arith, decimal-append 0 c t, value),
              λ k one below.
                  omega (arith, longer, one_less n k (length t) (ground arith) one below short),
            ),
          ),
        ))

zeros-AreDigits :
    (m n : ℕ) (t : Text)
    → AreDigits n t
    → (all is_digit (zeros m t) ≡ true)
      × ((length (zeros m t) ≡ m + length t) × (decimal 0 (zeros m t) ≡ n))
unfolding decimal
zeros-AreDigits zero n t h = (h.0, (omega arith, h.1.1.0))
zeros-AreDigits (suc m) n t h =
    let rest = zeros-AreDigits m n t h in
    (ground (arith, rest.0), (omega (arith, rest.1.0), rest.1.1))

parse_generation_lem :
    (kind : Kind) (t : Text) (n : ℕ)
    → all is_digit t ≡ true
    → length t ≡ 20
    → decimal 0 t ≡ n
    → parse_generation kind t ≡ some (record { kind = kind; generation = n })
unfolding decimal
parse_generation_lem kind t n digits twenty value =
    let fits : (all is_digit t && leb 1 (length t) && leb (length t) 20) ≡ true = ground arith in
    rw fits (ap (λ (m : ℕ). some (record { kind = kind; generation = m })) value)

-- The name of an operation below 10 to the 20th is read back as its kind and generation.
pub parse_operation_name-operation_name :
    (kind : Kind) (generation : ℕ)
    → generation < 10 ^ 20
    → parse_operation_name (operation_name kind generation)
      ≡ some (record { kind = kind; generation = generation })
unfolding operation_name natural_number AreDigits parse_generation
parse_operation_name-operation_name kind generation h =
    let t = digits_of (suc generation) generation in
    let digits = digits_of-AreDigits (suc generation) generation (omega arith) in
    let padded = zeros-AreDigits (20 - length t) generation t digits in
    let short : length t ≤ 20 = digits.1.1.1 20 (omega arith) h in
    parse_prefixed kind (zeros (20 - length t) t)
    ∙ parse_generation_lem kind (zeros (20 - length t) t) generation padded.0
        (omega (arith, padded.1.0)) padded.1.1
