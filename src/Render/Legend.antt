-- ===== src/Render/Legend.antt =====
-- renderers/shared/legend.mjs: which entries a legend shows, how they fill its rows and where each
-- stands. Lengths count units of 0.0001 px, and coordinates are not negative. What is drawn of the
-- entries is left out.
use Prim.Native.Nat.{◌/◌, max}
use codearmory_blacksmith.Base.{
  ℕ, ◌+◌, ◌-◌, ◌*◌, Text, codes, List, [], ◌∷◌, ◌++◌, Bool, true, false, ◌&&◌, ◌||◌, Option, none,
  some, text_eq, includes, if◌then◌else◌, ltb, length,
}
use codearmory_blacksmith.Render.Measure.{px, text_units}

pub record CatalogEntry : Type 0 where
  pub kind : Text
  pub label : Text
  pub swatch_width : Option ℕ
  pub swatch_gap : Option ℕ
  pub interactive : Option Bool

pub record Override : Type 0 where
  pub visible : Option Bool
  pub label : Option Text

pub record Config : Type 0 where
  pub mode : Option Text
  pub entries : List (Text × Override)

pub record Entry : Type 0 where
  pub kind : Text
  pub label : Text
  pub swatch_width : Option ℕ
  pub swatch_gap : Option ℕ
  pub present : Bool
  pub interactive : Bool

abbrev no_override : Override
no_override = record { visible = none; label = none }

-- `overrides[kind] || {}`
unfoldable pub override_for : Text → List (Text × Override) → Override
unfolding text_eq
override_for kind [] = no_override
override_for kind (p ∷ rest) =
    let later = override_for kind rest in if text_eq p.0 kind then p.1 else later

-- `value || otherwise`
abbrev pub filled_or : Text → Option Text → Text
filled_or otherwise none = otherwise
filled_or otherwise (some []) = otherwise
filled_or otherwise (some (c ∷ cs)) = c ∷ cs

-- `value !== false`
abbrev pub unless_false : Option Bool → Bool
unless_false none = true
unless_false (some b) = b

-- `value === true`
abbrev pub is_true : Option Bool → Bool
is_true none = false
is_true (some b) = b

unfoldable pub shown_entry : Text → List Text → CatalogEntry → Override → List Entry
unfolding text_eq includes
shown_entry mode present c override =
    let is_present = includes c.kind present in
    let selected = text_eq mode (codes "all") || is_present in
    if is_true override.visible || (selected && unless_false override.visible)
    then record {
      kind = c.kind;
      label = filled_or c.label override.label;
      swatch_width = c.swatch_width;
      swatch_gap = c.swatch_gap;
      present = is_present;
      interactive = unless_false c.interactive && is_present;
    }
      ∷ []
    else []

unfoldable pub shown_entries :
    Text → List Text → List (Text × Override) → List CatalogEntry → List Entry
unfolding shown_entry override_for
shown_entries mode present overrides [] = []
shown_entries mode present overrides (c ∷ rest) =
    shown_entry mode present c (override_for c.kind overrides)
    ++ shown_entries mode present overrides rest

unfoldable pub resolve_legend : Config → List CatalogEntry → List Text → List Entry
unfolding shown_entries text_eq
resolve_legend config catalog present =
    let mode = filled_or (codes "auto") config.mode in
    if text_eq mode (codes "hidden") then [] else shown_entries mode present config.entries catalog

abbrev default_to : ℕ → Option ℕ → ℕ
default_to n none = n
default_to n (some m) = m

-- Math.ceil of a length that is given in hundredths of a unit
abbrev pub ceil_px : ℕ → ℕ
ceil_px hundredths = px ((hundredths + 999999) / 1000000)

-- The font size counts tenths of a pixel, an advance of 0.62 em makes 620 units of each.
unfoldable pub measured_entry_width : Entry → ℕ → ℕ → ℕ
unfolding text_units
measured_entry_width e font_size swatch_gap = ceil_px (
    100
    * (default_to (px 14) e.swatch_width
        + swatch_gap
        + text_units e.label * font_size * 620
        + (if e.interactive then px 21 else 0)))

pub record Measured : Type 0 where
  pub entry : Entry
  pub width : ℕ

unfoldable pub measured_entries : ℕ → ℕ → List Entry → List Measured
unfolding measured_entry_width
measured_entries font_size swatch_gap [] = []
measured_entries font_size swatch_gap (e ∷ rest) =
    record {
      entry = e;
      width = measured_entry_width e font_size (default_to swatch_gap e.swatch_gap);
    }
    ∷ measured_entries font_size swatch_gap rest

-- The loop that fills the rows, with the last row and its cursor.
unfoldable pub fill_rows : ℕ → ℕ → List Measured → List Measured → ℕ → List (List Measured)
fill_rows width item_gap [] row cursor = row ∷ []
fill_rows width item_gap (e ∷ rest) [] cursor =
    fill_rows width item_gap rest (e ∷ []) (cursor + e.width)
fill_rows width item_gap (e ∷ rest) (r ∷ row) cursor =
    elim (ltb width (cursor + (item_gap + e.width))) [
      | true ↦ (r ∷ row) ∷ fill_rows width item_gap rest (e ∷ []) e.width
      | false ↦ fill_rows width item_gap rest ((r ∷ row) ++ e ∷ []) (cursor + (item_gap + e.width))
    ]

abbrev pub widest : List Measured → ℕ
widest [] = 0
widest (e ∷ rest) = max e.width (widest rest)

pub record Footprint : Type 0 where
  pub measured : List Measured
  pub rows : List (List Measured)
  pub row_count : ℕ
  pub min_width : ℕ
  pub extra_height : ℕ

pub record Spacing : Type 0 where
  pub font_size : ℕ
  pub item_gap : ℕ
  pub line_gap : ℕ
  pub swatch_gap : ℕ

unfoldable pub legend_footprint : List Entry → ℕ → Spacing → Footprint
unfolding measured_entries fill_rows
legend_footprint [] width s = record {
  measured = [];
  rows = [];
  row_count = 0;
  min_width = 0;
  extra_height = 0;
}
legend_footprint (e ∷ es) width s =
    let measured = measured_entries s.font_size s.swatch_gap (e ∷ es) in
    let rows = fill_rows width s.item_gap measured [] 0 in
    record {
      measured = measured;
      rows = rows;
      row_count = length rows;
      min_width = widest measured;
      extra_height = (length rows - 1) * s.line_gap;
    }
