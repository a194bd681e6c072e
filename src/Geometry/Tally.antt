-- ===== src/Geometry/Tally.antt =====
-- The segments that `routeBudgetMetrics` counts, without the indexes of its loop.
use codearmory_blacksmith.Base.{
  ℕ, suc, ◌+◌, ◌≡◌, refl, Bool, true, false, not, ◌&&◌, ltb, leb, if◌then◌else◌, List, [], ◌∷◌,
  ◌++◌, arith, length, Bool-cases, inl, inr,
}
use codearmory_blacksmith.Geometry.{Point}
use codearmory_blacksmith.Geometry.Route.{
  normalize_route_points, segment_position, is_interior, span_of,
}
use codearmory_blacksmith.Geometry.Budget.{
  Metrics, Budget, no_metrics, add_segment, measure, measure_from, last_point, add_bends,
  add_stretch, add_route, route_budget_from, route_budget_metrics,
}

-- A segment by its length, and whether it is inside of its route.
pub record Segment : Type 0 where
  pub size : ℕ
  pub is_inner : Bool

-- A segment that is no longer than the tolerance is none.
abbrev one_segment : Point → Point → Bool → List Segment
one_segment p q inner =
    if leb (span_of p q) 1 then [] else record { size = span_of p q; is_inner = inner } ∷ []

abbrev is_more : List Point → Bool
is_more [] = false
is_more (p ∷ rest) = true

-- From an inner point on, only the last segment ends the route.
abbrev inner_segments : Point → List Point → List Segment
inner_segments p [] = []
inner_segments p (q ∷ rest) = one_segment p q (is_more rest) ++ inner_segments q rest

-- The first segment begins the route.
abbrev route_segments : List Point → List Segment
route_segments [] = []
route_segments (p ∷ []) = []
route_segments (p ∷ q ∷ rest) = one_segment p q false ++ inner_segments q rest

abbrev pub all_segments : List (List Point) → List Segment
all_segments [] = []
all_segments (points ∷ rest) = route_segments (normalize_route_points points) ++ all_segments rest

abbrev pub number_of : (Segment → Bool) → List Segment → ℕ
number_of test [] = 0
number_of test (s ∷ rest) = if test s then suc (number_of test rest) else number_of test rest

-- The counts grow by the segments that are short, short inside of a route, short at an end of one, and
-- micro.
pub record IsTallied (b : Budget) (ss : List Segment) (before after : Metrics) : Type 0 where
  pub short :
      after.short_segments ≡ before.short_segments + number_of (λ s. ltb s.size b.segment) ss
  pub interior :
      after.short_interior_segments
      ≡ before.short_interior_segments + number_of (λ s. ltb s.size b.segment && s.is_inner) ss
  pub endpoint :
      after.short_endpoint_segments
      ≡ before.short_endpoint_segments + number_of (λ s. ltb s.size b.segment && not s.is_inner) ss
  pub micro :
      after.micro_segments ≡ before.micro_segments + number_of (λ s. ltb s.size b.micro_segment) ss

number_of-append :
    (test : Segment → Bool) (xs ys : List Segment)
    → number_of test (xs ++ ys) ≡ number_of test xs + number_of test ys
number_of-append test [] ys = omega arith
number_of-append test (x ∷ xs) ys = ground (arith, number_of-append test xs ys)

module _ (b : Budget) where
  IsTallied-refl : (m : Metrics) → IsTallied b [] m m
  IsTallied-refl m = record {
    short = omega arith;
    interior = omega arith;
    endpoint = omega arith;
    micro = omega arith;
  }

  append-IsTallied :
      (xs ys : List Segment) (l m n : Metrics)
      → IsTallied b xs l m
      → IsTallied b ys m n
      → IsTallied b (xs ++ ys) l n
  append-IsTallied xs ys l m n h k = record {
    short = omega (arith, h.short, k.short, number_of-append (λ s. ltb s.size b.segment) xs ys);
    interior = omega (
      arith,
      h.interior,
      k.interior,
      number_of-append (λ s. ltb s.size b.segment && s.is_inner) xs ys,
    );
    endpoint = omega (
      arith,
      h.endpoint,
      k.endpoint,
      number_of-append (λ s. ltb s.size b.segment && not s.is_inner) xs ys,
    );
    micro =
        omega (arith, h.micro, k.micro, number_of-append (λ s. ltb s.size b.micro_segment) xs ys);
  }

  add_segment-IsTallied :
      (inner : Bool) (size : ℕ) (m : Metrics)
      → IsTallied b (record { size = size; is_inner = inner } ∷ []) m (add_segment b inner size m)
  add_segment-IsTallied inner size m = record {
    short = ground arith;
    interior = ground arith;
    endpoint = ground arith;
    micro = ground arith;
  }

  measure-IsTallied :
      (segments index : ℕ) (p q : Point) (s : Metrics × ℕ) (inner : Bool)
      → is_interior (segment_position index segments) ≡ inner
      → IsTallied b (one_segment p q inner) s.0 (measure b segments index p q s).0
  measure-IsTallied segments index p q s inner h = elim (Bool-cases (leb (span_of p q) 1)) [
    | inl e ↦ rw e (IsTallied-refl s.0)
    | inr e ↦ rw (e, h) (add_segment-IsTallied inner (span_of p q) s.0)
  ]

  measure_from-IsTallied :
      (segments index : ℕ) (p : Point) (rest : List Point) (s : Metrics × ℕ)
      → suc index + length rest ≡ segments
      → IsTallied b (inner_segments p rest) s.0 (measure_from b segments (suc index) (p ∷ rest) s).0
  unfolding measure_from
  measure_from-IsTallied segments index p [] s h = IsTallied-refl s.0
  measure_from-IsTallied segments index p (q ∷ rest) s h =
      append-IsTallied (one_segment p q (is_more rest)) (inner_segments q rest) s.0 _ _
        (measure-IsTallied segments (suc index) p q s (is_more rest) (inside rest h))
        (measure_from-IsTallied segments (suc index) q rest (measure b segments (suc index) p q s)
          (omega arith))
    where
      inside :
          (rest : List Point)
          → suc index + suc (length rest) ≡ segments
          → is_interior (segment_position (suc index) segments) ≡ is_more rest
      inside [] k = ground arith
      inside (r ∷ rest) k = ground arith

  add_stretch-IsTallied :
      (ss : List Segment) (route direct : ℕ) (l m : Metrics)
      → IsTallied b ss l m
      → IsTallied b ss l (add_stretch b route direct m)
  add_stretch-IsTallied ss route direct l m h = elim (Bool-cases (leb direct 1)) [
    | inl e ↦ rw e h
    | inr e ↦
        rw e (record {
          short = h.short;
          interior = h.interior;
          endpoint = h.endpoint;
          micro = h.micro;
        })
  ]

  add_route-IsTallied :
      (points : List Point) (m : Metrics)
      → IsTallied b (route_segments points) m (add_route b points m)
  unfolding add_route measure_from
  add_route-IsTallied [] m = IsTallied-refl m
  add_route-IsTallied (p ∷ []) m = IsTallied-refl m
  add_route-IsTallied (p ∷ q ∷ rest) m =
      let start : Metrics × ℕ = (add_bends b (length rest) m, 0) in
      let next = measure_from b (suc (length rest)) 0 (p ∷ q ∷ rest) start in
      let told =
        append-IsTallied (one_segment p q false) (inner_segments q rest) start.0 _ next.0
          (measure-IsTallied (suc (length rest)) 0 p q start false refl)
          (measure_from-IsTallied (suc (length rest)) 0 q rest
            (measure b (suc (length rest)) 0 p q start) (omega arith)) in
      add_stretch-IsTallied _ next.1 (span_of p (last_point q rest)) m next.0 (record {
        short = told.short;
        interior = told.interior;
        endpoint = told.endpoint;
        micro = told.micro;
      })

  route_budget_from-IsTallied :
      (routes : List (List Point)) (m : Metrics)
      → IsTallied b (all_segments routes) m (route_budget_from b m routes)
  unfolding route_budget_from
  route_budget_from-IsTallied [] m = IsTallied-refl m
  route_budget_from-IsTallied (points ∷ rest) m =
      append-IsTallied (route_segments (normalize_route_points points)) (all_segments rest) m _ _
        (add_route-IsTallied (normalize_route_points points) m) (route_budget_from-IsTallied rest _)

  -- The metrics count every segment of the normalized routes, longer than the tolerance, that is
  -- shorter than a segment should be, once in all and once by its place: inside of its route, or,
  -- if it is the first or the last one, at an end; and every one that is shorter than a micro
  -- segment.
  pub route_budget_metrics-IsTallied :
      (routes : List (List Point))
      → IsTallied b (all_segments routes) no_metrics (route_budget_metrics b routes)
  unfolding route_budget_metrics
  route_budget_metrics-IsTallied routes = route_budget_from-IsTallied routes no_metrics
