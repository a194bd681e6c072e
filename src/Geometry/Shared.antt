-- ===== src/Geometry/Shared.antt =====
-- The corridors that two relationships share: `collectAmbiguousCorridors` of
-- renderers/shared/geometry.mjs.
use codearmory_blacksmith.Base.{
  ℕ, suc, ◌+◌, Bool, true, not, ◌&&◌, ◌||◌, Option, none, some, ltb, leb, if◌then◌else◌, List, [],
  ◌∷◌, ◌++◌, Text, text_eq, all,
}
use codearmory_blacksmith.Geometry.{Point, Segment, Overlap, collinear_axis_overlap}
use codearmory_blacksmith.Geometry.Route.{normalize_route_points}

pub record Relation : Type 0 where
  pub from : Text
  pub to : Text

-- A relation with its index and its normalized route.
pub record Routed : Type 0 where
  pub relation : Relation
  pub relation_index : ℕ
  pub points : List Point

abbrev pub is_end_of : Relation → Text → Bool
is_end_of r id = text_eq id r.from || text_eq id r.to

abbrev pub share_end : Relation → Relation → Bool
share_end l r = is_end_of r l.from || is_end_of r l.to

-- An overlap with the segments that it is on.
pub record Match : Type 0 where
  pub left_segment : ℕ
  pub right_segment : ℕ
  pub overlap : Overlap

abbrev found : ℕ → ℕ → Option Overlap → List Match
found i j none = []
found i j (some o) = record { left_segment = i; right_segment = j; overlap = o } ∷ []

unfoldable pub matches_of : ℕ → Segment → ℕ → List Point → List Match
unfolding collinear_axis_overlap
matches_of i s j [] = []
matches_of i s j (p ∷ []) = []
matches_of i s j (p ∷ q ∷ rest) =
    found i j (collinear_axis_overlap s (record { start = p; end = q }))
    ++ matches_of i s (suc j) (q ∷ rest)

-- The overlaps in the order of the two loops.
unfoldable pub matches_between : ℕ → List Point → List Point → List Match
unfolding matches_of
matches_between i [] right = []
matches_between i (p ∷ []) right = []
matches_between i (p ∷ q ∷ rest) right =
    matches_of i (record { start = p; end = q }) 0 right ++ matches_between (suc i) (q ∷ rest) right

abbrev is_short : ℕ → Match → Bool
is_short minimum m = ltb (m.overlap.length + 1) minimum

-- The body of the loops.
abbrev longer : ℕ → Option Match → Match → Option Match
longer minimum none m = if is_short minimum m then none else some m
longer minimum (some l) m =
    if not (is_short minimum m) && ltb (l.overlap.length + 1) m.overlap.length
    then some m
    else some l

unfoldable pub longest_of : ℕ → Option Match → List Match → Option Match
longest_of minimum longest [] = longest
longest_of minimum longest (m ∷ rest) = longest_of minimum (longer minimum longest m) rest

pub record Hit : Type 0 where
  pub left : Routed
  pub right : Routed
  pub match : Match

abbrev hit : Routed → Routed → Option Match → List Hit
hit l r none = []
hit l r (some m) = record { left = l; right = r; match = m } ∷ []

abbrev pub hit_between : ℕ → Routed → Routed → List Hit
hit_between minimum l r =
    if share_end l.relation r.relation
    then []
    else hit l r (longest_of minimum none (matches_between 0 l.points r.points))

unfoldable pub hits_with : ℕ → Routed → List Routed → List Hit
unfolding longest_of matches_between
hits_with minimum l [] = []
hits_with minimum l (r ∷ rest) = hit_between minimum l r ++ hits_with minimum l rest

unfoldable pub corridors_among : ℕ → List Routed → List Hit
unfolding hits_with
corridors_among minimum [] = []
corridors_among minimum (l ∷ rest) = hits_with minimum l rest ++ corridors_among minimum rest

-- A relation comes with an authored route, and is passed over if no segment of it is left.
abbrev keep_route : Routed → List Point → List Routed → List Routed
keep_route r [] rest = rest
keep_route r (p ∷ []) rest = rest
keep_route r (p ∷ q ∷ points) rest = record r { points = p ∷ q ∷ points } ∷ rest

unfoldable pub with_routes : List Routed → List Routed
unfolding normalize_route_points
with_routes [] = []
with_routes (r ∷ rest) = keep_route r (normalize_route_points r.points) (with_routes rest)

-- `collectAmbiguousCorridors`, for relations whose ends are texts.
unfoldable pub collect_ambiguous_corridors : ℕ → List Routed → List Hit
unfolding corridors_among with_routes
collect_ambiguous_corridors minimum relations = corridors_among minimum (with_routes relations)

-- Every overlap is short, or no longer than the reported one, up to the tolerance.
abbrev pub is_bounded_by : ℕ → Option Match → Match → Bool
is_bounded_by minimum none m = is_short minimum m
is_bounded_by minimum (some l) m = is_short minimum m || leb m.overlap.length (l.overlap.length + 1)

abbrev not_short : ℕ → Option Match → Bool
not_short minimum none = true
not_short minimum (some l) = not (is_short minimum l)

-- What a reported corridor is.
abbrev pub is_hit : ℕ → Hit → Bool
is_hit minimum h =
    not (share_end h.left.relation h.right.relation)
    && not_short minimum (some h.match)
    && all (is_bounded_by minimum (some h.match)) (matches_between 0 h.left.points h.right.points)
