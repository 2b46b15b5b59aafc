-- ===== src/Report/Options.antt =====
-- The options of a plot, as `getOptions` builds them (graph.js), and the two functions that rework
-- them (dashboard-commons.js), under tools/jmeter/results/*-report/content/js. An option that the code
-- leaves out is `none`. Fractions are in thousandths.
use Prim.Native.String.{String}
use text.Mathlib.Text.{◌==◌ as str_eq}
use high_performance_e_comme.Common.{
  ℕ, Bool, true, false, not, Option, none, some, List, if◌then◌else◌,
}
use high_performance_e_comme.Common.Int.{ℤ, pos, ◌+ℤ◌}
use high_performance_e_comme.Report.Format.{Text}
use high_performance_e_comme.Report.Series.{ExtraOptions, GraphData}

-- `series.lines`
pub record Lines : Type 0 where
  pub show : Option Bool
  pub fill : Option Bool
  pub line_width : Option ℕ

pub record Points : Type 0 where
  pub show : Bool
  pub radius : Option ℕ

pub record SeriesOptions : Type 0 where
  pub stack : Option Bool
  pub lines : Option Lines
  pub points : Option Points
  pub shadow_size : Option ℕ

pub record Legend : Type 0 where
  pub no_columns : ℕ
  pub show : Bool
  pub container : Option String

pub record Axis : Type 0 where
  pub mode : Option String
  pub timeformat : Option String
  pub axis_label : Option Text
  pub axis_label_use_canvas : Bool
  pub axis_label_font_size_pixels : ℕ
  pub axis_label_font_family : String
  pub axis_label_padding : ℕ
  pub tick_decimals : Option ℕ
  pub tick_length : Option ℕ
  pub tick_count : Option ℕ
  pub tick_list : Option (List (ℕ × String))
  pub min : Option ℤ
  pub max : Option ℤ

pub record Bars : Type 0 where
  pub show : Bool
  pub align : Option String
  pub bar_width : ℕ
  pub fill : Option ℕ

-- `tooltipOpts.content`: a template, or a function of the label and the coordinates.
pub data Tooltip : Type 0 where
  template : String → Tooltip
  formatter : (String → ℕ → ℕ → Text) → Tooltip

pub record Options : Type 0 where
  pub series : SeriesOptions
  pub legend : Legend
  pub xaxis : Axis
  pub yaxis : Axis
  pub bars : Option Bars
  pub grid_hoverable : Bool
  pub selection_mode : Option String
  pub tooltip : Bool
  pub tooltip_content : Tooltip
  pub colors : List String
  pub canvas : Bool

abbrev pub no_series_options : SeriesOptions
no_series_options = record { stack = none; lines = none; points = none; shadow_size = none }

-- `lines: { show: l }, points: { show: p }`
abbrev pub lines_points : Bool → Bool → SeriesOptions
lines_points l p = record {
  stack = none;
  lines = some (record { show = some l; fill = none; line_width = none });
  points = some (record { show = p; radius = none });
  shadow_size = none;
}

-- The settings that every axis of the report has, with its label.
abbrev pub axis : Text → Axis
axis label = record {
  mode = none;
  timeformat = none;
  axis_label = some label;
  axis_label_use_canvas = true;
  axis_label_font_size_pixels = 12;
  axis_label_font_family = "Verdana, Arial";
  axis_label_padding = 20;
  tick_decimals = none;
  tick_length = none;
  tick_count = none;
  tick_list = none;
  min = none;
  max = none;
}

abbrev pub time_axis : String → Text → Axis
time_axis format label = record (axis label) { mode = some "time"; timeformat = some format }

abbrev pub legend_in : ℕ → String → Legend
legend_in columns selector = record { no_columns = columns; show = true; container = some selector }

abbrev pub is_time_mode : Axis → Bool
is_time_mode a = elim a.mode [ none ↦ false | some m ↦ str_eq m "time" ]

-- The offset of a bound on a time axis, in thousandths.
abbrev bound_offset : Axis → ℤ
bound_offset a = if is_time_mode a then pos 3600000000 else pos 0

abbrev set_bound : ℤ → Option ℤ → Option ℤ → Option ℤ
set_bound offset none old = old
set_bound offset (some v) old = some (v +ℤ offset)

abbrev bound_axis : Option ℤ → Option ℤ → Axis → Axis
bound_axis lo hi a = record a {
  min = set_bound (bound_offset a) lo a.min;
  max = set_bound (bound_offset a) hi a.max;
}

abbrev apply_extra : Option ExtraOptions → Options → Options
apply_extra none o = o
apply_extra (some e) o = record o {
  xaxis = bound_axis e.min_x e.max_x o.xaxis;
  yaxis = bound_axis e.min_y e.max_y o.yaxis;
}

-- `prepareOptions(options, data)`
pub prepare_options : Options → GraphData → Options
prepare_options o d = apply_extra d.extra_options (record o { canvas = true })

-- `getProperty('series.lines.show', graphOptions) == false`
abbrev pub hides_lines : Options → Bool
hides_lines o = elim o.series.lines [
  | none ↦ false
  | some l ↦ elim l.show [ none ↦ false | some shown ↦ not shown ]
]

abbrev overview_axis : Axis → Axis
overview_axis a = record a { tick_count = some 2; axis_label = none }

abbrev overview_lines : Option Lines → Lines
overview_lines none = record { show = none; fill = none; line_width = some 1 }
overview_lines (some l) = record l { line_width = some 1 }

-- `prepareOverviewOptions(graphOptions)`: what it sets, over a copy of the graph's options. A list
-- of ticks is replaced by their number.
pub prepare_overview_options : Options → Options
prepare_overview_options o = record o {
  series = record (o.series) {
    shadow_size = some 0;
    lines = some (overview_lines o.series.lines);
    points = some (record { show = hides_lines o; radius = some 1 });
  };
  xaxis = record (overview_axis o.xaxis) { tick_list = none };
  yaxis = record (overview_axis o.yaxis) { tick_list = none };
  legend = record (o.legend) { show = false; container = none };
  grid_hoverable = false;
  tooltip = false;
}
