-- ===== src/Delta/Canonical.antt =====
-- The canonical text of a JSON value, by which delta/architecture-delta.mjs compares values.
use Prim.Native.Nat.{Ordering, ◌/◌, ◌%◌}
use codearmory_blacksmith.Base.{
  ℕ, ◌+◌, Text, codes, List, [], ◌∷◌, ◌++◌, Bool, true, false, ◌||◌, ◌&&◌, ltb, ◌==◌, if◌then◌else◌,
  text_eq,
}
use codearmory_blacksmith.Base.Order.{compare_text}
use codearmory_blacksmith.Json.{
  Value, Items, Fields, undefined, null, bool, num, str, arr, obj, nil, cons, end, field,
  join_texts,
}
use codearmory_blacksmith.Json.Size.{is_high_surrogate, is_low_surrogate}

abbrev hex_digit : ℕ → ℕ
hex_digit n = if ltb n 10 then 0x30 + n else 0x57 + n

-- `\uXXXX`
abbrev escape_code : ℕ → Text
escape_code c =
    0x5c
    ∷ b'u'
    ∷ hex_digit (c / 4096)
    ∷ hex_digit (c / 256 % 16)
    ∷ hex_digit (c / 16 % 16)
    ∷ hex_digit (c % 16)
    ∷ []

-- A code unit that is no part of a pair.
abbrev escape_unit : ℕ → Text
escape_unit c =
    if c == b'"' || c == 0x5c
    then 0x5c ∷ c ∷ []
    else if c == 8
    then 0x5c ∷ b'b' ∷ []
    else if c == 9
    then 0x5c ∷ b't' ∷ []
    else if c == 10
    then 0x5c ∷ b'n' ∷ []
    else if c == 12
    then 0x5c ∷ b'f' ∷ []
    else if c == 13
    then 0x5c ∷ b'r' ∷ []
    else if ltb c 0x20 || is_high_surrogate c || is_low_surrogate c
    then escape_code c
    else c ∷ []

escape : Text → Text
escape [] = []
escape (c ∷ []) = escape_unit c
escape (c ∷ d ∷ cs) =
    let pair = c ∷ d ∷ escape cs in
    let single = escape_unit c ++ escape (d ∷ cs) in
    if is_high_surrogate c && is_low_surrogate d then pair else single

-- `JSON.stringify(text)`
unfoldable pub quote : Text → Text
unfolding escape
quote t = b'"' ∷ (escape t ++ b'"' ∷ [])

insert_pair : Text × Text → List (Text × Text) → List (Text × Text)
insert_pair p [] = p ∷ []
insert_pair p (q ∷ rest) = elim (compare_text q.0 p.0) [
  | Ordering.gt ↦ p ∷ q ∷ rest
  | _ ↦ q ∷ insert_pair p rest
]

sort_pairs : List (Text × Text) → List (Text × Text)
unfolding insert_pair
sort_pairs [] = []
sort_pairs (p ∷ rest) = insert_pair p (sort_pairs rest)

print_pairs : List (Text × Text) → List Text
print_pairs [] = []
print_pairs ((k, v) ∷ rest) = (quote k ++ b':' ∷ v) ∷ print_pairs rest

-- `canonical(value)`. `undefined` prints as the text of that name in an object, and as nothing in an
-- array.
unfoldable mutual
  unfolding quote print_pairs sort_pairs join_texts

  pub canonical : Value → Text
  canonical undefined = codes "undefined"
  canonical null = codes "null"
  canonical (bool true) = codes "true"
  canonical (bool false) = codes "false"
  canonical (num x) = x.text
  canonical (str t) = quote t
  canonical (arr xs) = b'[' ∷ (join_texts (codes ",") (canonical_items xs) ++ b']' ∷ [])
  canonical (obj fs) =
      b'{' ∷ (join_texts (codes ",") (print_pairs (sort_pairs (canonical_fields fs))) ++ b'}' ∷ [])

  pub canonical_items : Items → List Text
  canonical_items nil = []
  canonical_items (cons undefined xs) = [] ∷ canonical_items xs
  canonical_items (cons x xs) = canonical x ∷ canonical_items xs

  pub canonical_fields : Fields → List (Text × Text)
  canonical_fields end = []
  canonical_fields (field k v rest) = (k, canonical v) ∷ canonical_fields rest

-- `equal(left, right)`
unfoldable pub same_value : Value → Value → Bool
unfolding text_eq canonical
same_value left right = text_eq (canonical left) (canonical right)
