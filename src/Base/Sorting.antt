-- ===== src/Base/Sorting.antt =====
-- A stable sort by a key, and that it forgets the order of what it sorts.
use Prim.Native.Nat.{Ordering}
use mathlib.Core.Logic.{◌≢◌}
use mathlib.Core.Path.{◌≡◌, refl, sym, ap, ◌∙◌, subst}
use mathlib.Core.List.{List, [], ◌∷◌, Permᴰ}
use native.Mathlib.Omega.{arith}
use codearmory_blacksmith.Base.Lists.{Each}
use codearmory_blacksmith.Base.Order.{flip, IsTotalOrder}
use codearmory_blacksmith.Base.Pairs.{Pairwise}

module _ {A : Type 0} (order : A → A → Ordering) where
  -- Before the items that are not smaller.
  unfoldable pub insert_ordered : A → List A → List A
  insert_ordered t [] = t ∷ []
  insert_ordered t (x ∷ xs) = elim (order x t) [
    | Ordering.lt ↦ x ∷ insert_ordered t xs
    | _ ↦ t ∷ x ∷ xs
  ]

  -- `items.sort(order)`
  unfoldable pub sort_ordered : List A → List A
  unfolding insert_ordered
  sort_ordered [] = []
  sort_ordered (x ∷ xs) = insert_ordered x (sort_ordered xs)

-- No item comes behind a neighbour that is greater.
module _ {A : Type 0} (order : A → A → Ordering) where
  abbrev pub Follows : A → List A → Type 0
  Follows x [] = Unit
  Follows x (y ∷ ys) = order x y ≢ Ordering.gt

  abbrev pub IsOrdered : List A → Type 0
  IsOrdered [] = Unit
  IsOrdered (x ∷ xs) = Follows x xs × IsOrdered xs

  module _ (swap : (a b : A) → order b a ≡ flip (order a b)) where
    insert-Follows :
        (x t : A) (xs : List A)
        → order x t ≡ Ordering.lt
        → Follows x xs
        → Follows x (insert_ordered order t xs)
    unfolding insert_ordered
    insert-Follows x t [] e h = λ g. ground arith
    insert-Follows x t (y ∷ ys) e h = by_order (order y t) refl
      where
        by_order :
            (c : Ordering)
            → order y t ≡ c
            → Follows x (elim c [ Ordering.lt ↦ y ∷ insert_ordered order t ys | _ ↦ t ∷ y ∷ ys ])
        by_order Ordering.lt k = h
        by_order Ordering.eq k = λ g. ground arith
        by_order Ordering.gt k = λ g. ground arith

    insert-IsOrdered : (t : A) (xs : List A) → IsOrdered xs → IsOrdered (insert_ordered order t xs)
    unfolding insert_ordered
    insert-IsOrdered t [] h = (tt, tt)
    insert-IsOrdered t (x ∷ xs) h = by_order (order x t) refl (insert-IsOrdered t xs h.1)
      where
        by_order :
            (c : Ordering)
            → order x t ≡ c
            → IsOrdered (insert_ordered order t xs)
            → IsOrdered (elim c [ Ordering.lt ↦ x ∷ insert_ordered order t xs | _ ↦ t ∷ x ∷ xs ])
        by_order Ordering.lt k more = (insert-Follows x t xs k h.0, more)
        by_order Ordering.eq k more = (λ g. ground (arith, swap x t), h)
        by_order Ordering.gt k more = (λ g. ground (arith, swap x t), h)

    pub sort_ordered-IsOrdered : (xs : List A) → IsOrdered (sort_ordered order xs)
    unfolding sort_ordered
    sort_ordered-IsOrdered [] = tt
    sort_ordered-IsOrdered (x ∷ xs) = insert-IsOrdered x _ (sort_ordered-IsOrdered xs)

-- No two different items have the same key.
abbrev pub HasOwnKeys : {A K : Type 0} → (A → K) → List A → Type 0
HasOwnKeys key xs = Pairwise (λ a b. key a ≡ key b → a ≡ b) xs

-- Keys of which other keys are a part are their own where those are.
module _ {A K L : Type 0} (key : A → K) (part : K → L) where
  Each-part :
      (x : A) (ys : List A)
      → Each (λ y. part (key x) ≡ part (key y) → x ≡ y) ys
      → Each (λ y. key x ≡ key y → x ≡ y) ys
  Each-part x [] h = tt
  Each-part x (y ∷ ys) h = (λ e. h.0 (ap part e), Each-part x ys h.1)

  pub HasOwnKeys-part : (xs : List A) → HasOwnKeys (λ x. part (key x)) xs → HasOwnKeys key xs
  HasOwnKeys-part [] h = tt
  HasOwnKeys-part (x ∷ xs) h = (Each-part x xs h.0, HasOwnKeys-part xs h.1)

module _ {A K : Type 0} (key : A → K) {cmp : K → K → Ordering} (o : IsTotalOrder cmp) where
  abbrev pub by_key : A → A → Ordering
  by_key a b = cmp (key a) (key b)

  insert_lt :
      (x y : A) (l : List A)
      → cmp (key x) (key y) ≡ Ordering.lt
      → insert_ordered by_key x (insert_ordered by_key y l)
        ≡ insert_ordered by_key y (insert_ordered by_key x l)
  unfolding insert_ordered
  insert_lt x y [] h = ground (arith, o.swap (key x) (key y))
  insert_lt x y (z ∷ zs) h =
      ground (arith, insert_lt x y zs h, o.swap (key x) (key y), o.trans (key z) (key x) (key y))

  insert_swap :
      (x y : A) (l : List A)
      → (key x ≡ key y → x ≡ y)
      → insert_ordered by_key x (insert_ordered by_key y l)
        ≡ insert_ordered by_key y (insert_ordered by_key x l)
  insert_swap x y l own = by_order (cmp (key x) (key y)) refl
    where
      by_order :
          (c : Ordering)
          → cmp (key x) (key y) ≡ c
          → insert_ordered by_key x (insert_ordered by_key y l)
            ≡ insert_ordered by_key y (insert_ordered by_key x l)
      by_order Ordering.lt e = insert_lt x y l e
      by_order Ordering.eq e = let same = own (o.equal (key x) (key y) e) in rw same
      by_order Ordering.gt e = sym (insert_lt y x l (o.swap (key x) (key y) ∙ ap flip e))

  Each-Perm : (P : A → Type 0) {xs ys : List A} → Permᴰ xs ys → Each P xs → Each P ys
  Each-Perm P Permᴰ.nil h = tt
  Each-Perm P (Permᴰ.cons e p) h = (subst P e h.0, Each-Perm P p h.1)
  Each-Perm P (Permᴰ.swap e f) h = (subst P f h.1.0, (subst P e h.0, h.1.1))
  Each-Perm P (Permᴰ.trans p q) h = Each-Perm P q (Each-Perm P p h)

  abbrev Own : A → A → Type 0
  Own a b = key a ≡ key b → a ≡ b

  HasOwnKeys-Perm : {xs ys : List A} → Permᴰ xs ys → HasOwnKeys key xs → HasOwnKeys key ys
  HasOwnKeys-Perm Permᴰ.nil h = tt
  HasOwnKeys-Perm (Permᴰ.cons {l₂ = l₂} e p) h =
      (subst (λ x. Each (Own x) l₂) e (Each-Perm (Own _) p h.0), HasOwnKeys-Perm p h.1)
  HasOwnKeys-Perm (Permᴰ.swap {a} {b} {l = l} e f) h = (
    (
      λ k. sym f ∙ (sym (h.0.0 (ap key e ∙ (sym k ∙ ap key (sym f)))) ∙ e),
      subst (λ x. Each (Own x) l) f h.1.0,
    ),
    (subst (λ x. Each (Own x) l) e h.0.1, h.1.1),
  )
  HasOwnKeys-Perm (Permᴰ.trans p q) h = HasOwnKeys-Perm q (HasOwnKeys-Perm p h)

  -- Items with keys of their own are sorted alike, whatever order they come in.
  pub sort_ordered-Perm :
      {xs ys : List A}
      → Permᴰ xs ys
      → HasOwnKeys key xs
      → sort_ordered by_key xs ≡ sort_ordered by_key ys
  unfolding sort_ordered
  sort_ordered-Perm Permᴰ.nil h = refl
  sort_ordered-Perm (Permᴰ.cons {b = b} {l₁ = l₁} e p) h =
      ap (λ x. insert_ordered by_key x (sort_ordered by_key l₁)) e
      ∙ ap (insert_ordered by_key b) (sort_ordered-Perm p h.1)
  sort_ordered-Perm (Permᴰ.swap {a} {b} {a'} {l = l} e f) h =
      insert_swap a b (sort_ordered by_key l) h.0.0
      ∙ (ap (λ x. insert_ordered by_key x (insert_ordered by_key a (sort_ordered by_key l))) f
          ∙ ap (λ x. insert_ordered by_key a' (insert_ordered by_key x (sort_ordered by_key l))) e)
  sort_ordered-Perm (Permᴰ.trans p q) h =
      sort_ordered-Perm p h ∙ sort_ordered-Perm q (HasOwnKeys-Perm p h)
