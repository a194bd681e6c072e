-- ===== src/Geometry/Grid.antt =====
-- The cells of a grid layout, renderers/architecture/grid.mjs.
use codearmory_blacksmith.Base.{
  ℕ, ◌+◌, ◌*◌, Bool, not, ◌&&◌, Option, none, some, leb, if◌then◌else◌, List, [], ◌∷◌, ◌++◌, Text,
  ◌==◌,
}
use codearmory_blacksmith.Geometry.{Point, Rect}

pub record GridLayout : Type 0 where
  pub origin : Point
  pub cols : ℕ
  pub gap_x : ℕ
  pub gap_y : ℕ
  pub cell_w : ℕ
  pub cell_h : ℕ

-- In pixels here, as the numbers of a diagram are.
abbrev pub default_grid : GridLayout
default_grid = record {
  origin = record { x = 40; y = 80 };
  cols = 4;
  gap_x = 30;
  gap_y = 40;
  cell_w = 130;
  cell_h = 64;
}

abbrev or_default : Option ℕ → ℕ → ℕ
or_default none n = n
or_default (some m) n = m

-- The layout of a diagram, whose mode is "grid": each number may be missing.
pub record RawLayout : Type 0 where
  pub is_grid : Bool
  pub origin : Option Point
  pub cols : Option ℕ
  pub gap_x : Option ℕ
  pub gap_y : Option ℕ
  pub cell_w : Option ℕ
  pub cell_h : Option ℕ

unfoldable pub grid_layout : Option RawLayout → Option GridLayout
grid_layout none = none
grid_layout (some raw) =
    if not raw.is_grid
    then none
    else some (record {
      origin = elim raw.origin [ none ↦ default_grid.origin | some p ↦ p ];
      cols = or_default raw.cols default_grid.cols;
      gap_x = or_default raw.gap_x default_grid.gap_x;
      gap_y = or_default raw.gap_y default_grid.gap_y;
      cell_w = or_default raw.cell_w default_grid.cell_w;
      cell_h = or_default raw.cell_h default_grid.cell_h;
    })

pub record Cell : Type 0 where
  pub row : ℕ
  pub col : ℕ

-- A component by its position, or by its row and column. (A negative row or column is `below_zero`.)
pub data Place : Type 0 where
  below_zero : Place
  cell : Cell → Place

pub record Component : Type 0 where
  pub id : Text
  pub pos : Option Point
  pub place : Option Place

abbrev pub cell_corner : GridLayout → Cell → Point
cell_corner grid c = record {
  x = grid.origin.x + c.col * (grid.cell_w + grid.gap_x);
  y = grid.origin.y + c.row * (grid.cell_h + grid.gap_y);
}

-- `none` is [NaN, NaN]. (A cell below zero fails the validation.)
abbrev placed : Option GridLayout → Option Place → Option Point
placed (some grid) (some (cell c)) = some (cell_corner grid c)
placed _ _ = none

unfoldable pub resolve_component_pos : Component → Option GridLayout → Option Point
resolve_component_pos c grid = elim c.pos [ some p ↦ some p | none ↦ placed grid c.place ]

pub data Problem : Type 0 where
  needs_place : Text → Problem
  negative_cell : Text → Problem
  column_exceeds : Text → Problem
  shared_cell : Text → Text → Problem

abbrev pub Seen : Type 0
Seen = List (Cell × Text)

abbrev pub same_cell : Cell → Cell → Bool
same_cell a b = (a.row == b.row) && (a.col == b.col)

unfoldable pub holder : Cell → Seen → Option Text
holder c [] = none
holder c ((d, id) ∷ rest) = if same_cell d c then some id else holder c rest

abbrev pub column_problem : GridLayout → Text → Cell → List Problem
column_problem grid id c = if leb grid.cols c.col then column_exceeds id ∷ [] else []

-- What the loop finds at a component, and what it has seen then.
abbrev pub at_cell : GridLayout → Text → Cell → Seen → List Problem × Seen
at_cell grid id c seen = elim (holder c seen) [
  | some other ↦ (column_problem grid id c ++ shared_cell other id ∷ [], seen)
  | none ↦ (column_problem grid id c, (c, id) ∷ seen)
]

abbrev pub at_place : GridLayout → Text → Option Place → Seen → List Problem × Seen
at_place grid id none seen = (needs_place id ∷ [], seen)
at_place grid id (some below_zero) seen = (negative_cell id ∷ [], seen)
at_place grid id (some (cell c)) seen = at_cell grid id c seen

abbrev pub at_component : GridLayout → Component → Seen → List Problem × Seen
at_component grid c seen = elim c.pos [
  | some _ ↦ ([], seen)
  | none ↦ at_place grid c.id c.place seen
]

unfoldable pub placement_problems : GridLayout → List Component → Seen → List Problem
unfolding holder
placement_problems grid [] seen = []
placement_problems grid (c ∷ rest) seen =
    let (problems, next) = at_component grid c seen in problems ++ placement_problems grid rest next

abbrev pub cell_rect : GridLayout → Cell → ℕ → ℕ → Rect
cell_rect grid c width height = record {
  x = (cell_corner grid c).x;
  y = (cell_corner grid c).y;
  width = width;
  height = height;
  cx = 0;
  cy = 0;
}
