-- ===== src/Render/Examples.antt =====
-- The properties of the shared renderer code at concrete diagrams.
use codearmory_blacksmith.Base.{
  ℕ, ◌≡◌, ◌↔◌, ◌≤◌, refl, arith, Text, codes, List, [], ◌∷◌, true, false, none, some, includes,
  text_eq, Each,
}
use codearmory_blacksmith.Base.Trim.{trim_start, trim_end}
use codearmory_blacksmith.Json.{Value, undefined, str, nil, arr, end}
use codearmory_blacksmith.Render.Diagnostics.{
  new_recorder, Failure, renderer_failure, throw_diagnostic_problems, problem_value,
}
use codearmory_blacksmith.Render.Recorded.{
  IsRecorder, distinct_texts, messages_of, throw_diagnostic_problems-reported,
}
use codearmory_blacksmith.Base.{if◌then◌else◌}
use codearmory_blacksmith.Render.Identity.{Drawing, semantic_ids, validate_guided_views}
use codearmory_blacksmith.Render.Distinct.{IsFocused, validate_guided_views_lem}
use codearmory_blacksmith.Render.Profile.{
  Diagram, region, security_group, deployment_ownership_diagnostics,
}
use codearmory_blacksmith.Render.Ownership.{IsOwned, deployment_ownership_diagnostics-IsOwned}
use codearmory_blacksmith.Render.Measure.{
  px, text_units, fitted_node_font_size, minimum_node_text_width, available_node_text_width,
  fitted_node_font_size-fits,
}
use codearmory_blacksmith.Render.Legend.{Entry, legend_footprint, Measured, measured_entries}
use codearmory_blacksmith.Render.Placed.{
  Layout, relationship_label, rect_at, MeasuredLegend, measured, measure_legend, unless_wide,
  place_footprint,
}
use codearmory_blacksmith.Render.Shown.{IsClear, measure_legend-IsClear}

started : IsRecorder (new_recorder true)
unfolding includes distinct_texts
started = record { distinct = refl; same = λ m. refl; silent = λ h. refl }

abbrev overlap : Value
overlap = problem_value (codes "layout/constraint") end (codes "overlap")

abbrev two_overlaps : List Value
two_overlaps = overlap ∷ overlap ∷ []

abbrev failure : Failure
failure = record {
  is_syntax_error = false;
  code = undefined;
  message = str (codes "Layout failed");
  name = str (codes "Error");
  archify_diagnostics = arr nil;
}

reported_example :
    includes (codes "overlap") (
      messages_of
        (renderer_failure undefined failure
          (throw_diagnostic_problems
            (codes "Layout failed")
            (codes "gap" ∷ codes "overlap " ∷ [])
            (codes "layout/constraint")
            end
            (new_recorder true)).1).diagnostics)
    ≡ true
unfolding includes text_eq trim_start trim_end
reported_example =
    throw_diagnostic_problems-reported (codes "Layout failed") (codes "gap" ∷ codes "overlap " ∷ [])
      (codes "layout/constraint") end (new_recorder true) undefined failure refl started
      (codes "overlap ") refl (λ h. cc)

abbrev shop : Diagram
shop = record {
  engineering_profile = some (codes "deployment-ownership");
  components =
      record { id = codes "db"; kind = codes "database"; tag = some (codes "team-a") }
      ∷ record { id = codes "web"; kind = codes "external"; tag = none }
      ∷ [];
  boundaries =
      record { kind = region; label = codes "north"; wraps = codes "db" ∷ [] }
      ∷ record { kind = security_group; label = codes "private"; wraps = codes "db" ∷ [] }
      ∷ [];
  connections =
      record { id = none; from = codes "web"; to = codes "db"; label = some (codes "TLS") } ∷ [];
}

ownership_example : (deployment_ownership_diagnostics shop ≡ []) ↔ IsOwned shop
ownership_example = deployment_ownership_diagnostics-IsOwned shop

fitted_example :
    (minimum_node_text_width (codes "gateway") 85 ≤ available_node_text_width (px 50))
    ↔ (85 ≤ fitted_node_font_size (codes "gateway") (px 50) 110 80)
unfolding text_units minimum_node_text_width available_node_text_width
fitted_example =
    fitted_node_font_size-fits (codes "gateway") (px 50) 110 80 85 (omega arith) (omega arith)
      (omega arith) (omega arith) (omega arith)

abbrev entry : Text → Entry
entry label = record {
  kind = label;
  label = label;
  swatch_width = none;
  swatch_gap = none;
  present = true;
  interactive = false;
}

abbrev wide : ℕ → Measured
wide n = record { entry = entry (codes "a"); width = n }

abbrev layout : Layout
layout = record {
  x = px 20;
  baseline_y = px 300;
  width = px 80;
  spacing = record { font_size = 80; item_gap = px 22; line_gap = px 22; swatch_gap = px 8 };
  min_title_y = px 100;
  obstacles = relationship_label (rect_at (px 20) (px 50) (px 40) (px 14)) ∷ [];
  hides = false;
}

abbrev two_rows : MeasuredLegend
two_rows = record {
  entries =
      record {
        measured = record { entry = entry (codes "api"); width = px 37 };
        x = px 20;
        baseline = px 278;
        row = 0;
      }
      ∷ record {
        measured = record { entry = entry (codes "db"); width = px 32 };
        x = px 20;
        baseline = px 300;
        row = 1;
      }
      ∷ [];
  row_count = 2;
  title_y = some (px 258);
}

abbrev api_db : List Entry
api_db = entry (codes "api") ∷ entry (codes "db") ∷ []

two_rows_measured : measure_legend api_db layout ≡ measured two_rows
unfolding measure_legend legend_footprint unless_wide place_footprint
two_rows_measured = refl

legend_example : IsClear layout (measured_entries 80 (px 8) api_db) two_rows.entries
legend_example = measure_legend-IsClear api_db layout two_rows (omega arith) two_rows_measured

abbrev drawing : Drawing
drawing = record {
  items = λ collection.
      if text_eq collection (codes "components")
      then some (codes "web") ∷ some (codes "db") ∷ []
      else some (codes "read") ∷ none ∷ some (codes "write") ∷ [];
  views = (codes "all", codes "web" ∷ codes "db" ∷ []) ∷ (codes "store", codes "db" ∷ []) ∷ [];
}

views_example :
    (validate_guided_views (codes "architecture") drawing (new_recorder true)
      ≡ (none, new_recorder true))
    ↔ ((distinct_texts (codes "all" ∷ codes "store" ∷ []) ≡ true)
        × Each (IsFocused (semantic_ids (codes "architecture") drawing)) drawing.views)
views_example = validate_guided_views_lem (codes "architecture") drawing (new_recorder true)
