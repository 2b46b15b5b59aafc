-- ===== src/Tests/Charts.antt =====
-- A small chart, and runs of the report's model on it.
use Prim.Native.String.{String}
use text.Mathlib.Text.{◌==◌ as str_eq}
use high_performance_e_comme.Common.{
  ◌<◌, ◌%◌, ◌≡◌, ◌↔◌, refl, true, false, none, some, List, [], ◌∷◌, All, if◌then◌else◌,
}
use mathlib.Core.List.{Memᴰ}
use high_performance_e_comme.Report.Format.{duration_parts}
use high_performance_e_comme.Report.Format.Durations.{shown, duration_parts-exact_iff}
use high_performance_e_comme.Report.Series.{
  Series, GraphData, Browser, Filters, filter_series, prepare_series, prepare_data,
}
use high_performance_e_comme.Report.Series.Preparation.{Prepared, prepare_series-Prepared}
use high_performance_e_comme.Report.Page.{Graph, Box, checked_names, Page, Report}
use high_performance_e_comme.Report.Page.Choices.{labels, IsChecked, prepare_data-shows}
use high_performance_e_comme.Report.Charts.PerSecond.{total_tps_steps}
use high_performance_e_comme.Report.Events.{Custom, standard, panel_target, collapse}
use high_performance_e_comme.Report.Events.Panels.{collapse-again}
use high_performance_e_comme.Report.Legend.{Computed}

abbrev browser : Browser
browser = record {
  matches = λ pattern label. str_eq pattern label;
  comes_after = λ s t. false;
  sort = λ compare names. names;
}

abbrev filters : Filters
filters = record {
  show_controllers_only = false;
  series_filter = "capture";
  filters_only_sample_series = false;
}

abbrev series_of : String → Series
series_of label = record {
  label = label;
  points = (60000, 4) ∷ (0, 2) ∷ (120000, 9) ∷ [];
  is_controller = false;
  is_overall = false;
  color = none;
}

abbrev chart : GraphData
chart = record {
  result = record {
    series = series_of "capture" ∷ series_of "login" ∷ [];
    supports_controllers_discrimination = true;
    granularity = 60000;
    ticks = [];
  };
  extra_options = none;
}

abbrev blank : Page
blank = record {
  plots = [];
  boxes = [];
  messages = [];
  zooms = [];
  colour_boxes = [];
  chevrons = [];
  legends_disabled = [];
  label_colors = [];
  location = "";
}

abbrev report : Report
report = record { graphs = λ g. chart; page = blank }

duration_parts-exact_iff_example :
    ((shown (duration_parts 20000100) ≡ 20000100) ↔ (20000100 % 86400000 < 8640000))
    × ((duration_parts 20000100).minutes < 60)
    × ((duration_parts 20000100).seconds < 60)
    × ((duration_parts 20000100).millis < 1000)
duration_parts-exact_iff_example = duration_parts-exact_iff 20000100

prepare_series-Prepared_example :
    Prepared
      (filter_series browser filters false chart.result)
      (prepare_series browser filters false false chart).result.series
prepare_series-Prepared_example = prepare_series-Prepared browser filters false false chart

abbrev three_boxes : List Box
three_boxes =
    (record { container = "#choices"; name = "capture"; checked = false })
    ∷ (record { container = "#choices"; name = "login"; checked = true })
    ∷ (record { container = "#others"; name = "capture"; checked = true })
    ∷ []

prepare_data-shows_example :
    All
      (λ (s : Series). Memᴰ s chart.result.series)
      (prepare_data chart.result.series (checked_names "#choices" three_boxes))
    × (Memᴰ "login"
          (labels (prepare_data chart.result.series (checked_names "#choices" three_boxes)))
        ↔ (Memᴰ "login" (labels chart.result.series)
            × ((b : Box) × Memᴰ b three_boxes × IsChecked "#choices" "login" b)))
prepare_data-shows_example = prepare_data-shows chart.result.series "#choices" three_boxes "login"

-- A browser, as far as the two colours go.
abbrev computed : Computed
computed color = if str_eq color "#818181" then "rgb(129, 129, 129)" else color

-- A report with no custom graph.
abbrev no_custom : Custom
no_custom = record { is_drawn = λ page. true; refresh_custom_graph = λ fix w. w }

total_tps-panel : panel_target "bodyTotalTPS" ≡ some (standard total_tps_steps true, "#totalTPS")
unfolding panel_target
total_tps-panel = refl

collapse-again_example :
    let once = collapse browser filters no_custom "bodyTotalTPS" false report in
    let twice = collapse browser filters no_custom "bodyTotalTPS" false once in
    (twice.page.plots ≡ once.page.plots) × ((g : Graph) → twice.graphs g ≡ once.graphs g)
collapse-again_example =
    collapse-again browser filters no_custom "bodyTotalTPS" total_tps_steps true "#totalTPS" report
      total_tps-panel
