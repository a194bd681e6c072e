-- ===== src/Base/Order.antt =====
-- Three-way comparisons: what makes one a total order, and how an order on the parts gives one on
-- lists, on optional values and on two kinds that are kept apart.
use Prim.Native.Nat.{compare, Ordering}
use mathlib.Core.Path.{◌≡◌, refl, ap}
use mathlib.Core.Option.{Option, none, some}
use mathlib.Core.List.{List, [], ◌∷◌}
use native.Mathlib.Omega.{arith}
use codearmory_blacksmith.Base.Texts.{Text}

abbrev pub flip : Ordering → Ordering
flip Ordering.lt = Ordering.gt
flip Ordering.eq = Ordering.eq
flip Ordering.gt = Ordering.lt

-- `if (c !== 0) return c; return rest`
abbrev pub then_by : Ordering → Ordering → Ordering
then_by Ordering.lt rest = Ordering.lt
then_by Ordering.eq rest = rest
then_by Ordering.gt rest = Ordering.gt

pub record IsTotalOrder {ℓ} {A : Type ℓ} (cmp : A → A → Ordering) : Type ℓ where
  pub equal : (a b : A) → cmp a b ≡ Ordering.eq → a ≡ b
  pub same : (a : A) → cmp a a ≡ Ordering.eq
  pub swap : (a b : A) → cmp b a ≡ flip (cmp a b)
  pub trans : (a b c : A) → cmp a b ≡ Ordering.lt → cmp b c ≡ Ordering.lt → cmp a c ≡ Ordering.lt

pub compare-IsTotalOrder : IsTotalOrder compare
compare-IsTotalOrder = record {
  equal = λ a b h. ground arith;
  same = λ a. ground arith;
  swap = λ a b. ground arith;
  trans = λ a b c h k. ground arith;
}

-- Lexicographic order, a proper prefix first: `<` on texts, and the order of two lists.
module _ {ℓ} {A : Type ℓ} (cmp : A → A → Ordering) where
  unfoldable pub lexicographic : List A → List A → Ordering
  lexicographic [] [] = Ordering.eq
  lexicographic [] (y ∷ ys) = Ordering.lt
  lexicographic (x ∷ xs) [] = Ordering.gt
  lexicographic (x ∷ xs) (y ∷ ys) = then_by (cmp x y) (lexicographic xs ys)

-- `<` and `>` on texts
abbrev pub compare_text : Text → Text → Ordering
compare_text = lexicographic compare

module _ {ℓ} {A : Type ℓ} {cmp : A → A → Ordering} (o : IsTotalOrder cmp) where
  lex-equal : (xs ys : List A) → lexicographic cmp xs ys ≡ Ordering.eq → xs ≡ ys
  unfolding lexicographic
  lex-equal [] [] h = refl
  lex-equal [] (y ∷ ys) h = cc
  lex-equal (x ∷ xs) [] h = cc
  lex-equal (x ∷ xs) (y ∷ ys) h = ground (arith, o.equal x y, lex-equal xs ys)

  lex-same : (xs : List A) → lexicographic cmp xs xs ≡ Ordering.eq
  unfolding lexicographic
  lex-same [] = refl
  lex-same (x ∷ xs) = rw (o.same x) (lex-same xs)

  lex-swap : (xs ys : List A) → lexicographic cmp ys xs ≡ flip (lexicographic cmp xs ys)
  unfolding lexicographic
  lex-swap [] [] = refl
  lex-swap [] (y ∷ ys) = refl
  lex-swap (x ∷ xs) [] = refl
  lex-swap (x ∷ xs) (y ∷ ys) = ground (arith, o.swap x y, lex-swap xs ys)

  lex_trans :
      (xs ys zs : List A)
      → lexicographic cmp xs ys ≡ Ordering.lt
      → lexicographic cmp ys zs ≡ Ordering.lt
      → lexicographic cmp xs zs ≡ Ordering.lt
  unfolding lexicographic
  lex_trans [] [] zs h k = cc
  lex_trans [] (y ∷ ys) [] h k = cc
  lex_trans [] (y ∷ ys) (z ∷ zs) h k = refl
  lex_trans (x ∷ xs) [] zs h k = cc
  lex_trans (x ∷ xs) (y ∷ ys) [] h k = cc
  lex_trans (x ∷ xs) (y ∷ ys) (z ∷ zs) h k =
      ground (arith, o.trans x y z, o.equal x y, o.equal y z, o.same x, lex_trans xs ys zs)

  pub lexicographic-IsTotalOrder : IsTotalOrder (lexicographic cmp)
  lexicographic-IsTotalOrder = record {
    equal = lex-equal;
    same = lex-same;
    swap = lex-swap;
    trans = lex_trans;
  }

-- An absent value last: a release comes after its prereleases.
module _ {ℓ} {A : Type ℓ} (cmp : A → A → Ordering) where
  unfoldable pub none_last : Option A → Option A → Ordering
  none_last none none = Ordering.eq
  none_last none (some y) = Ordering.gt
  none_last (some x) none = Ordering.lt
  none_last (some x) (some y) = cmp x y

module _ {ℓ} {A : Type ℓ} {cmp : A → A → Ordering} (o : IsTotalOrder cmp) where
  none_last-equal : (a b : Option A) → none_last cmp a b ≡ Ordering.eq → a ≡ b
  unfolding none_last
  none_last-equal none none h = refl
  none_last-equal none (some y) h = cc
  none_last-equal (some x) none h = cc
  none_last-equal (some x) (some y) h = ap some (o.equal x y h)

  none_last-same : (a : Option A) → none_last cmp a a ≡ Ordering.eq
  unfolding none_last
  none_last-same none = refl
  none_last-same (some x) = o.same x

  none_last-swap : (a b : Option A) → none_last cmp b a ≡ flip (none_last cmp a b)
  unfolding none_last
  none_last-swap none none = refl
  none_last-swap none (some y) = refl
  none_last-swap (some x) none = refl
  none_last-swap (some x) (some y) = o.swap x y

  none_last_trans :
      (a b c : Option A)
      → none_last cmp a b ≡ Ordering.lt
      → none_last cmp b c ≡ Ordering.lt
      → none_last cmp a c ≡ Ordering.lt
  unfolding none_last
  none_last_trans none none c h k = cc
  none_last_trans none (some y) c h k = cc
  none_last_trans (some x) none none h k = cc
  none_last_trans (some x) none (some z) h k = cc
  none_last_trans (some x) (some y) none h k = refl
  none_last_trans (some x) (some y) (some z) h k = o.trans x y z h k

  pub none_last-IsTotalOrder : IsTotalOrder (none_last cmp)
  none_last-IsTotalOrder = record {
    equal = none_last-equal;
    same = none_last-same;
    swap = none_last-swap;
    trans = none_last_trans;
  }

-- The first parts, then the second ones.
module _ {ℓ κ} {A : Type ℓ} {B : Type κ} (f : A → A → Ordering) (g : B → B → Ordering) where
  abbrev pub by_parts : A × B → A × B → Ordering
  by_parts p q = then_by (f p.0 q.0) (g p.1 q.1)

module _ {ℓ κ} {A : Type ℓ} {B : Type κ} {f : A → A → Ordering} {g : B → B → Ordering}
    (o : IsTotalOrder f) (q : IsTotalOrder g) where
  pub by_parts-IsTotalOrder : IsTotalOrder (by_parts f g)
  by_parts-IsTotalOrder = record {
    equal = λ a b h. ground (arith, o.equal a.0 b.0, q.equal a.1 b.1);
    same = λ a. ground (arith, o.same a.0, q.same a.1);
    swap = λ a b. ground (arith, o.swap a.0 b.0, q.swap a.1 b.1);
    trans = λ a b c h k. ground (
      arith,
      o.trans a.0 b.0 c.0,
      o.equal a.0 b.0,
      o.equal b.0 c.0,
      o.same a.0,
      q.trans a.1 b.1 c.1,
    );
  }
