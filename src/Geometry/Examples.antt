-- ===== src/Geometry/Examples.antt =====
-- The properties of the geometry at concrete figures.
use codearmory_blacksmith.Base.{ℕ, ◌+◌, ◌≡◌, refl, true, List, [], ◌∷◌, none, some, codes, all, ltb}
use codearmory_blacksmith.Geometry.{Point, Rect, Interval, merge_intervals}
use codearmory_blacksmith.Geometry.Shared.{Routed, collect_ambiguous_corridors}
use codearmory_blacksmith.Base.{length, text_eq}
use codearmory_blacksmith.Geometry.Budget.{Budget, no_metrics, route_budget_metrics}
use codearmory_blacksmith.Geometry.Tally.{IsTallied, all_segments, route_budget_metrics-IsTallied}
use codearmory_blacksmith.Geometry.Grid.{Cell, cell, default_grid, Component, placement_problems}
use codearmory_blacksmith.Geometry.Corridor.{covered, apart, merge_intervals-apart}
use codearmory_blacksmith.Geometry.Placement.{cells, distinct, placement_problems-distinct}

abbrev rect : ℕ → ℕ → Rect
rect x y = record { x = x; y = y; width = 4; height = 4; cx = x + 2; cy = y + 2 }

abbrev at : ℕ → ℕ → Point
at x y = record { x = x; y = y }

abbrev runs : List Interval
runs =
    record { low = 10; high = 12 }
    ∷ record { low = 0; high = 4 }
    ∷ record { low = 3; high = 6 }
    ∷ []

merge_intervals_example :
    (covered 5 (merge_intervals runs) ≡ true) × (apart (merge_intervals runs) ≡ true)
merge_intervals_example = merge_intervals-apart 5 runs refl

abbrev on : ℕ → ℕ → Cell
on row col = record { row = row; col = col }

abbrev two_components : List Component
two_components =
    record { id = codes "api"; pos = none; place = some (cell (on 0 1)) }
    ∷ record { id = codes "db"; pos = none; place = some (cell (on 1 1)) }
    ∷ []

placement_example :
    (distinct (cells two_components) ≡ true)
    × (all (λ (c : Cell). ltb c.col default_grid.cols) (cells two_components) ≡ true)
unfolding placement_problems
placement_example = placement_problems-distinct default_grid two_components refl

abbrev upper_route : Routed
upper_route = record {
  relation = record { from = codes "a"; to = codes "b" };
  relation_index = 0;
  points = at 0 50 ∷ at 90000 50 ∷ [];
}

abbrev lower_route : Routed
lower_route = record {
  relation = record { from = codes "c"; to = codes "d" };
  relation_index = 1;
  points = at 95000 50 ∷ at 5000 50 ∷ at 5000 900 ∷ [];
}

one_corridor : length (collect_ambiguous_corridors 80000 (upper_route ∷ lower_route ∷ [])) ≡ 1
unfolding collect_ambiguous_corridors text_eq
one_corridor = refl

abbrev suggested : Budget
suggested = record { bends = 2; stretch = 13500; segment = 160000; micro_segment = 80000 }

abbrev one_bend : List (List Point)
one_bend = (at 0 50 ∷ at 70000 50 ∷ at 70000 900 ∷ []) ∷ []

budget_example :
    IsTallied suggested (all_segments one_bend) no_metrics (route_budget_metrics suggested one_bend)
budget_example = route_budget_metrics-IsTallied suggested one_bend
