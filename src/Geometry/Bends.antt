-- ===== src/Geometry/Bends.antt =====
-- What `normalizeRoutePoints` leaves: a route from the same first point, in which every inner point
-- is a bend or a reversal.
use codearmory_blacksmith.Base.{
  if◌then◌else◌, and_true, ◌≡◌, refl, ◌∙◌, Bool, true, false, not, ◌&&◌, Option, none, some, List,
  [], ◌∷◌, arith,
}
use codearmory_blacksmith.Geometry.{Point}
use codearmory_blacksmith.Geometry.Route.{
  collinear_forward, dedupe, dedupe_after, pop_collinear, simplify, reverse_onto,
  normalize_route_points,
}

-- The point turns before the two that follow it, forwards and backwards.
abbrev first_turn : Point → List Point → Bool
first_turn a [] = true
first_turn a (b ∷ []) = true
first_turn a (b ∷ c ∷ rest) = not (collinear_forward a b c)

abbrev last_turn : Point → List Point → Bool
last_turn c [] = true
last_turn c (b ∷ []) = true
last_turn c (b ∷ a ∷ rest) = not (collinear_forward a b c)

-- No inner point continues its segment straight on.
abbrev is_bent : List Point → Bool
is_bent [] = true
is_bent (p ∷ rest) = first_turn p rest && is_bent rest

abbrev is_bent_back : List Point → Bool
is_bent_back [] = true
is_bent_back (p ∷ rest) = last_turn p rest && is_bent_back rest

-- The same at the joint of a reversed list and the list behind it.
abbrev joins : List Point → List Point → Bool
joins [] done = true
joins (k ∷ kept) [] = true
joins (k ∷ kept) (d ∷ done) = first_turn k (d ∷ done) && last_turn d (k ∷ kept)

joins_nil : (kept : List Point) → joins kept [] ≡ true
joins_nil [] = refl
joins_nil (k ∷ kept) = refl

reverse_onto-bent :
    (kept done : List Point)
    → is_bent_back kept ≡ true
    → is_bent done ≡ true
    → joins kept done ≡ true
    → is_bent (reverse_onto done kept) ≡ true
unfolding reverse_onto
reverse_onto-bent [] done h k j = k
reverse_onto-bent (a ∷ []) [] h k j = refl
reverse_onto-bent (a ∷ []) (d ∷ done) h k j = ground arith
reverse_onto-bent (a ∷ b ∷ kept) [] h k j =
    reverse_onto-bent (b ∷ kept) (a ∷ []) (ground arith) refl (ground arith)
reverse_onto-bent (a ∷ b ∷ kept) (d ∷ done) h k j =
    reverse_onto-bent (b ∷ kept) (a ∷ d ∷ done) (ground arith) (ground arith) (ground arith)

either_bent :
    (p : Point) (t : Bool) (x y : List Point)
    → is_bent_back (p ∷ x) ≡ true
    → (t ≡ false → is_bent_back (p ∷ y) ≡ true)
    → is_bent_back (p ∷ (if t then x else y)) ≡ true
either_bent p true x y h k = h
either_bent p false x y h k = k refl

bent_tail :
    (b : Point) (rest : List Point) → is_bent_back (b ∷ rest) ≡ true → is_bent_back rest ≡ true
bent_tail b rest h = (and_true (last_turn b rest) (is_bent_back rest) h).1

turned :
    (p a b : Point) (rest : List Point)
    → collinear_forward a b p ≡ false
    → is_bent_back (b ∷ a ∷ rest) ≡ true
    → is_bent_back (p ∷ b ∷ a ∷ rest) ≡ true
turned p a b rest e h = rw (e, h) refl

pop_collinear-bent :
    (kept : List Point) (p : Point)
    → is_bent_back kept ≡ true
    → is_bent_back (p ∷ pop_collinear kept p) ≡ true
unfolding pop_collinear
pop_collinear-bent [] p h = refl
pop_collinear-bent (b ∷ []) p h = refl
pop_collinear-bent (b ∷ a ∷ rest) p h =
    either_bent p (collinear_forward a b p) (pop_collinear (a ∷ rest) p) (b ∷ a ∷ rest)
      (pop_collinear-bent (a ∷ rest) p (bent_tail b (a ∷ rest) h)) (λ e. turned p a b rest e h)

simplify-bent :
    (kept points : List Point)
    → is_bent_back kept ≡ true
    → is_bent_back (simplify kept points) ≡ true
unfolding simplify
simplify-bent kept [] h = h
simplify-bent kept (p ∷ rest) h =
    simplify-bent (p ∷ pop_collinear kept p) rest (pop_collinear-bent kept p h)

abbrev first : List Point → Option Point
first [] = none
first (p ∷ rest) = some p

abbrev last_or : Option Point → List Point → Option Point
last_or o [] = o
last_or o (p ∷ rest) = last_or (some p) rest

first-reverse_onto :
    (done kept : List Point) → first (reverse_onto done kept) ≡ last_or (first done) kept
unfolding reverse_onto
first-reverse_onto done [] = refl
first-reverse_onto done (p ∷ rest) = first-reverse_onto (p ∷ done) rest

either_last :
    (o : Option Point) (t : Bool) (x y : List Point)
    → last_or o x ≡ last_or o y
    → last_or o (if t then x else y) ≡ last_or o y
either_last o true x y h = h
either_last o false x y h = refl

last_or-pop_collinear :
    (o : Option Point) (kept : List Point) (p : Point)
    → last_or o (pop_collinear kept p) ≡ last_or o kept
unfolding pop_collinear
last_or-pop_collinear o [] p = refl
last_or-pop_collinear o (b ∷ []) p = refl
last_or-pop_collinear o (b ∷ a ∷ rest) p =
    either_last o (collinear_forward a b p) (pop_collinear (a ∷ rest) p) (b ∷ a ∷ rest)
      (last_or-pop_collinear o (a ∷ rest) p)

-- A list that is not empty keeps its last point.
last_or-simplify :
    (k : Point) (kept points : List Point)
    → last_or none (simplify (k ∷ kept) points) ≡ last_or none (k ∷ kept)
unfolding simplify
last_or-simplify k kept [] = refl
last_or-simplify k kept (p ∷ rest) =
    last_or-simplify p (pop_collinear (k ∷ kept) p) rest
    ∙ last_or-pop_collinear (some p) (k ∷ kept) p

-- A route that is not empty keeps its first point when it is normalized, and no inner point of the
-- result continues its segment straight on.
normalize_route_points-is_bent :
    (p : Point) (rest : List Point)
    → (first (normalize_route_points (p ∷ rest)) ≡ some p)
      × (is_bent (normalize_route_points (p ∷ rest)) ≡ true)
unfolding normalize_route_points simplify
normalize_route_points-is_bent p rest =
    let kept = simplify [] (dedupe (p ∷ rest)) in
    (
      first-reverse_onto [] kept ∙ last_or-simplify p [] (dedupe_after p rest),
      reverse_onto-bent kept [] (simplify-bent [] (dedupe (p ∷ rest)) refl) refl (joins_nil kept),
    )
