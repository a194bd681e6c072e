-- ===== src/Geometry/Budget.antt =====
-- `routeBudgetMetrics` of renderers/shared/geometry.mjs: bends, detours and short segments.
use Prim.Native.Nat.{min, max}
use codearmory_blacksmith.Base.{
  ℕ, suc, ◌+◌, ◌*◌, Bool, not, ◌&&◌, Option, none, some, ltb, leb, if◌then◌else◌, List, [], ◌∷◌,
  length,
}
use codearmory_blacksmith.Geometry.{Point}
use codearmory_blacksmith.Geometry.Route.{
  normalize_route_points, segment_position, is_interior, span_of,
}

-- A ratio of a route's length to the direct distance.
pub record Stretch : Type 0 where
  pub route : ℕ
  pub direct : ℕ

pub record Metrics : Type 0 where
  pub max_bends : ℕ
  pub routes_over_bends : ℕ
  pub max_stretch : Option Stretch
  pub routes_over_stretch : ℕ
  pub min_segment : Option ℕ
  pub min_interior_segment : Option ℕ
  pub short_segments : ℕ
  pub short_endpoint_segments : ℕ
  pub short_interior_segments : ℕ
  pub micro_segments : ℕ

-- The suggestions; the stretch counts ten-thousandths.
pub record Budget : Type 0 where
  pub bends : ℕ
  pub stretch : ℕ
  pub segment : ℕ
  pub micro_segment : ℕ

abbrev pub no_metrics : Metrics
no_metrics = record {
  max_bends = 0;
  routes_over_bends = 0;
  max_stretch = none;
  routes_over_stretch = 0;
  min_segment = none;
  min_interior_segment = none;
  short_segments = 0;
  short_endpoint_segments = 0;
  short_interior_segments = 0;
  micro_segments = 0;
}

abbrev pub count : Bool → ℕ → ℕ
count b n = if b then suc n else n

abbrev least : Option ℕ → ℕ → Option ℕ
least none n = some n
least (some m) n = some (min m n)

abbrev least_if : Bool → Option ℕ → ℕ → Option ℕ
least_if b o n = if b then least o n else o

-- The body of the loop over the segments, for a segment that is no shorter than the tolerance.
abbrev pub add_segment : Budget → Bool → ℕ → Metrics → Metrics
add_segment budget inner size m = record m {
  min_segment = least m.min_segment size;
  min_interior_segment = least_if inner m.min_interior_segment size;
  short_segments = count (ltb size budget.segment) m.short_segments;
  short_interior_segments = count (ltb size budget.segment && inner) m.short_interior_segments;
  short_endpoint_segments = count (ltb size budget.segment && not inner) m.short_endpoint_segments;
  micro_segments = count (ltb size budget.micro_segment) m.micro_segments;
}

-- The metrics and the length of the route so far.
abbrev pub measure : Budget → ℕ → ℕ → Point → Point → Metrics × ℕ → Metrics × ℕ
measure budget segments index p q (m, route) = if leb (span_of p q) 1 then (m, route) else (
  add_segment budget (is_interior (segment_position index segments)) (span_of p q) m,
  route + span_of p q,
)

unfoldable pub measure_from : Budget → ℕ → ℕ → List Point → Metrics × ℕ → Metrics × ℕ
measure_from budget segments index [] s = s
measure_from budget segments index (p ∷ []) s = s
measure_from budget segments index (p ∷ q ∷ rest) s =
    measure_from budget segments (suc index) (q ∷ rest) (measure budget segments index p q s)

abbrev pub exceeds : Stretch → Stretch → Bool
exceeds a b = ltb (b.route * a.direct) (a.route * b.direct)

abbrev greatest : Option Stretch → Stretch → Option Stretch
greatest none s = some s
greatest (some r) s = if exceeds s r then some s else some r

abbrev pub add_stretch : Budget → ℕ → ℕ → Metrics → Metrics
add_stretch budget route direct m = if leb direct 1 then m else record m {
  max_stretch = greatest m.max_stretch (record { route = route; direct = direct });
  routes_over_stretch =
      count (ltb ((budget.stretch + 1) * direct) (route * 10000)) m.routes_over_stretch;
}

abbrev pub last_point : Point → List Point → Point
last_point p [] = p
last_point p (q ∷ rest) = last_point q rest

abbrev pub add_bends : Budget → ℕ → Metrics → Metrics
add_bends budget bends m = record m {
  max_bends = max m.max_bends bends;
  routes_over_bends = count (ltb budget.bends bends) m.routes_over_bends;
}

-- The body of the loop over the routes, for the normalized points.
unfoldable pub add_route : Budget → List Point → Metrics → Metrics
unfolding measure_from
add_route budget [] m = m
add_route budget (p ∷ []) m = m
add_route budget (p ∷ q ∷ rest) m =
    let (next, route) =
      measure_from budget (suc (length rest)) 0 (p ∷ q ∷ rest)
        (add_bends budget (length rest) m, 0) in
    add_stretch budget route (span_of p (last_point q rest)) next

unfoldable pub route_budget_from : Budget → Metrics → List (List Point) → Metrics
unfolding add_route normalize_route_points
route_budget_from budget m [] = m
route_budget_from budget m (points ∷ rest) =
    route_budget_from budget (add_route budget (normalize_route_points points) m) rest

unfoldable pub route_budget_metrics : Budget → List (List Point) → Metrics
unfolding route_budget_from
route_budget_metrics budget routes = route_budget_from budget no_metrics routes
