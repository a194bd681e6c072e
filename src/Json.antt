-- ===== src/Json.antt =====
-- JavaScript values as the program meets them after `JSON.parse`, with the operations that it uses.
pub mod Size
pub mod Sorting
use Prim.Native.Nat.{Ordering}
use codearmory_blacksmith.Base.{
  ℕ, ◌+◌, Text, codes, List, [], ◌∷◌, ◌++◌, Bool, true, false, not, ◌&&◌, ◌||◌, Option, none, some,
  text_eq, includes, if◌then◌else◌, all, ltb, leb, ◌==◌,
}
use codearmory_blacksmith.Base.Order.{compare_text}

-- A number by what the program can see of it: its value, if it is a non-negative integer, and its
-- text, `String(n)`. (A negative zero counts as 0.)
pub record Number : Type 0 where
  pub natural : Option ℕ
  pub text : Text

mutual
  pub data Value : Type 0 where
    undefined null : Value
    bool : Bool → Value
    num : Number → Value
    str : Text → Value
    arr : Items → Value
    obj : Fields → Value

  pub data Items : Type 0 where
    nil : Items
    cons : Value → Items → Items

  pub data Fields : Type 0 where
    end : Fields
    field : Text → Value → Fields → Fields

-- Boolean(value) && typeof value === 'object' && !Array.isArray(value)
abbrev pub is_plain_object : Value → Bool
is_plain_object (obj fs) = true
is_plain_object _ = false

abbrev pub fields_of : Value → Fields
fields_of (obj fs) = fs
fields_of _ = end

unfoldable pub lookup : Text → Fields → Value
lookup k end = undefined
lookup k (field j v fs) = if text_eq j k then v else lookup k fs

-- `value.key`, on an object
unfoldable pub get : Value → Text → Value
unfolding lookup
get v k = lookup k (fields_of v)

-- `Object.hasOwn(value, key)`
unfoldable pub has_own : Text → Fields → Bool
has_own k end = false
has_own k (field j v fs) = text_eq j k || has_own k fs

-- `Object.keys(value)`
unfoldable pub keys : Fields → List Text
keys end = []
keys (field k v fs) = k ∷ keys fs

insert_text : Text → List Text → List Text
insert_text t [] = t ∷ []
insert_text t (x ∷ xs) = elim (compare_text x t) [
  | Ordering.gt ↦ t ∷ x ∷ xs
  | _ ↦ x ∷ insert_text t xs
]

-- `texts.sort()`
unfoldable pub sort_texts : List Text → List Text
unfolding insert_text
sort_texts [] = []
sort_texts (x ∷ xs) = insert_text x (sort_texts xs)

-- `texts.join(separator)`
unfoldable pub join_texts : Text → List Text → Text
join_texts s [] = []
join_texts s (x ∷ []) = x
join_texts s (x ∷ y ∷ rest) = x ++ (s ++ join_texts s (y ∷ rest))

unfoldable pub has_exact_keys : Value → List Text → Bool
unfolding keys sort_texts join_texts
has_exact_keys v expected =
    is_plain_object v
    && text_eq (join_texts (0 ∷ []) (sort_texts (keys (fields_of v))))
        (join_texts (0 ∷ []) (sort_texts expected))

unfoldable pub has_only_keys : Value → List Text → Bool
unfolding keys
has_only_keys v allowed = all (λ k. includes k allowed) (keys (fields_of v))

-- `value === text`, and `typeof value === 'string'`
abbrev pub is_text : Value → Text → Bool
is_text (str s) t = text_eq s t
is_text _ t = false

abbrev pub as_text : Value → Option Text
as_text (str s) = some s
as_text _ = none

abbrev pub is_natural : Number → ℕ → Bool
is_natural x n = elim x.natural [ none ↦ false | some m ↦ m == n ]

-- `value === n`, for a natural number `n`
abbrev pub is_number_value : Value → ℕ → Bool
is_number_value (num x) n = is_natural x n
is_number_value _ n = false

-- `String(value)`, by which `pattern.test(value)` and `${value}` read any value. No object is taken
-- to override `toString`.
unfoldable mutual
  pub coerce : Value → Text
  coerce undefined = codes "undefined"
  coerce null = codes "null"
  coerce (bool true) = codes "true"
  coerce (bool false) = codes "false"
  coerce (num x) = x.text
  coerce (str s) = s
  coerce (arr xs) = coerce_items xs
  coerce (obj fs) = codes "[object Object]"

  pub coerce_items : Items → Text
  coerce_items nil = []
  coerce_items (cons x xs) = coerce_item x ++ coerce_rest xs

  pub coerce_item : Value → Text
  coerce_item undefined = []
  coerce_item null = []
  coerce_item (bool true) = codes "true"
  coerce_item (bool false) = codes "false"
  coerce_item (num x) = x.text
  coerce_item (str s) = s
  coerce_item (arr xs) = coerce_items xs
  coerce_item (obj fs) = codes "[object Object]"

  pub coerce_rest : Items → Text
  coerce_rest nil = []
  coerce_rest (cons x xs) = b',' ∷ (coerce_item x ++ coerce_rest xs)

-- `Boolean(value)`
abbrev pub is_truthy : Value → Bool
is_truthy undefined = false
is_truthy null = false
is_truthy (bool b) = b
is_truthy (num x) = not (is_natural x 0)
is_truthy (str []) = false
is_truthy (str (c ∷ cs)) = true
is_truthy _ = true

-- `String(value || '')`
abbrev pub text_or_empty : Value → Text
text_or_empty v = if is_truthy v then coerce v else []
