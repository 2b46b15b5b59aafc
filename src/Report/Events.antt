-- ===== src/Report/Events.antt =====
-- What the reader of the report does: opening a panel, and showing or hiding all series (graph.js and
-- dashboard-commons.js under tools/jmeter/results/*-report/content/js).
pub mod Panels
use Prim.Native.String.{String, ◌++◌ as append}
use text.Mathlib.Text.{◌==◌ as str_eq}
use high_performance_e_comme.Common.{
  Bool, true, false, not, Option, none, some, List, [], ◌∷◌, if◌then◌else◌,
}
use high_performance_e_comme.Report.Series.{Browser, Filters}
use high_performance_e_comme.Report.Page.{Refresh, Box, Page, Report, refresh, is_graph}
use high_performance_e_comme.Report.Charts.Distributions.{
  response_time_percentiles_steps, response_time_distribution_steps,
  synthetic_response_time_distribution_steps,
}
use high_performance_e_comme.Report.Charts.OverTime.{
  active_threads_over_time_steps, bytes_throughput_over_time_steps, response_time_over_time_steps,
  response_time_percentiles_over_time_steps,
}
use high_performance_e_comme.Report.Charts.Latencies.{
  latencies_over_time_steps, connect_time_over_time_steps,
}
use high_performance_e_comme.Report.Charts.Versus.{
  time_vs_threads_steps, response_time_vs_request_steps, latencies_vs_request_steps,
}
use high_performance_e_comme.Report.Charts.PerSecond.{
  hits_per_second_steps, codes_per_second_steps, transactions_per_second_steps, total_tps_steps,
}

-- `refreshCustomGraph` and the test of its graph: no file of the repository defines them.
pub record Custom : Type 0 where
  pub is_drawn : Page → Bool
  pub refresh_custom_graph : Bool → Report → Report

-- What a panel shows: the custom graph, or the graph that is refreshed by the steps with or without
-- `fixTimestamps`; and the anchor that is jumped to.
pub data Target : Type 0 where
  custom : Target
  standard : Refresh → Bool → Target

-- The ladder of `collapse`, by the panel's id.
unfoldable pub panel_target : String → Option (Target × String)
panel_target id =
    if str_eq id "bodyBytesThroughputOverTime"
    then some (standard bytes_throughput_over_time_steps true, "#bytesThroughputOverTime")
    else if str_eq id "bodyLatenciesOverTime"
    then some (standard latencies_over_time_steps true, "#latenciesOverTime")
    else if str_eq id "bodyCustomGraph"
    then some (custom, "#responseCustomGraph")
    else if str_eq id "bodyConnectTimeOverTime"
    then some (standard connect_time_over_time_steps true, "#connectTimeOverTime")
    else if str_eq id "bodyResponseTimePercentilesOverTime"
    then some (
      standard response_time_percentiles_over_time_steps true,
      "#responseTimePercentilesOverTime",
    )
    else if str_eq id "bodyResponseTimeDistribution"
    then some (standard response_time_distribution_steps false, "#responseTimeDistribution")
    else if str_eq id "bodySyntheticResponseTimeDistribution"
    then some (
      standard synthetic_response_time_distribution_steps false,
      "#syntheticResponseTimeDistribution",
    )
    else if str_eq id "bodyActiveThreadsOverTime"
    then some (standard active_threads_over_time_steps true, "#activeThreadsOverTime")
    else if str_eq id "bodyTimeVsThreads"
    then some (standard time_vs_threads_steps false, "#timeVsThreads")
    else if str_eq id "bodyCodesPerSecond"
    then some (standard codes_per_second_steps true, "#codesPerSecond")
    else if str_eq id "bodyTransactionsPerSecond"
    then some (standard transactions_per_second_steps true, "#transactionsPerSecond")
    else if str_eq id "bodyTotalTPS"
    then some (standard total_tps_steps true, "#totalTPS")
    else if str_eq id "bodyResponseTimeVsRequest"
    then some (standard response_time_vs_request_steps false, "#responseTimeVsRequest")
    else if str_eq id "bodyLatenciesVsRequest"
    then some (standard latencies_vs_request_steps false, "#latencyVsRequest")
    else none

abbrev set_chevron : String → Bool → Report → Report
set_chevron id up w = record w { page = record (w.page) { chevrons = (id, up) ∷ w.page.chevrons } }

abbrev jump : String → Report → Report
jump anchor w = record w { page = record (w.page) { location = anchor } }

module _ (b : Browser) (f : Filters) (c : Custom) where
  -- A graph that is not drawn yet is refreshed. In the pages that the generator writes, the element
  -- that `collapse` looks up in the panel, by its class, is the one that the panel's graph is drawn on;
  -- the model asks for that one.
  pub show_panel : Target → Report → Report
  show_panel custom w = if c.is_drawn w.page then w else c.refresh_custom_graph true w
  show_panel (standard r fix) w = if is_graph r.infos.flot w.page then w else refresh b f r fix w

  abbrev open_target : Option (Target × String) → Report → Report
  open_target none w = w
  open_target (some (t, anchor)) w = jump anchor (show_panel t w)

  -- `collapse(elem, collapsed)`, for the element's id.
  pub collapse : String → Bool → Report → Report
  unfolding show_panel
  collapse id true w = set_chevron id false w
  collapse id false w = open_target (panel_target id) (set_chevron id true w)

-- The ladder of `toggleAll`, by the id of the container.
pub choices_target : String → Option Target
choices_target id =
    if str_eq id "choicesBytesThroughputOverTime"
    then some (standard bytes_throughput_over_time_steps false)
    else if str_eq id "choicesResponseTimesOverTime"
    then some (standard response_time_over_time_steps false)
    else if str_eq id "choicesResponseCustomGraph"
    then some custom
    else if str_eq id "choicesLatenciesOverTime"
    then some (standard latencies_over_time_steps false)
    else if str_eq id "choicesConnectTimeOverTime"
    then some (standard connect_time_over_time_steps false)
    else if str_eq id "choicesResponseTimePercentilesOverTime"
    then some (standard response_time_percentiles_over_time_steps false)
    else if str_eq id "choicesResponseTimePercentiles"
    then some (standard response_time_percentiles_steps false)
    else if str_eq id "choicesActiveThreadsOverTime"
    then some (standard active_threads_over_time_steps false)
    else if str_eq id "choicesTimeVsThreads"
    then some (standard time_vs_threads_steps false)
    else if str_eq id "choicesSyntheticResponseTimeDistribution"
    then some (standard synthetic_response_time_distribution_steps false)
    else if str_eq id "choicesResponseTimeDistribution"
    then some (standard response_time_distribution_steps false)
    else if str_eq id "choicesHitsPerSecond"
    then some (standard hits_per_second_steps false)
    else if str_eq id "choicesCodesPerSecond"
    then some (standard codes_per_second_steps false)
    else if str_eq id "choicesTransactionsPerSecond"
    then some (standard transactions_per_second_steps false)
    else if str_eq id "choicesTotalTPS"
    then some (standard total_tps_steps false)
    else if str_eq id "choicesResponseTimeVsRequest"
    then some (standard response_time_vs_request_steps false)
    else if str_eq id "choicesLatencyVsRequest"
    then some (standard latencies_vs_request_steps false)
    else none

abbrev pub selector_of : String → String
selector_of id = append "#" id

-- `cases.prop('checked', checked)` for the boxes of one container.
pub set_checked : String → Bool → List Box → List Box
set_checked container checked [] = []
set_checked container checked (x ∷ xs) =
    (if str_eq x.container container then record x { checked = checked } else x)
    ∷ set_checked container checked xs

module _ (b : Browser) (f : Filters) (c : Custom) where
  abbrev refresh_target : Target → Report → Report
  refresh_target custom w = c.refresh_custom_graph false w
  refresh_target (standard r fix) w = refresh b f r fix w

  abbrev color_labels : String → Bool → Report → Report
  color_labels container checked w = record w {
    page = record (w.page) {
      label_colors = (container, if checked then "black" else "#818181") ∷ w.page.label_colors;
    };
  }

  abbrev redraw : String → Bool → Option Target → Report → Report
  redraw container checked none w = w
  redraw container checked (some t) w = color_labels container checked (refresh_target t w)

  -- `toggleAll(id, checked)`
  pub toggle_all : String → Bool → Report → Report
  unfolding set_checked
  toggle_all id checked w = redraw (selector_of id) checked (choices_target id) (record w {
    page = record (w.page) {
      boxes = set_checked (selector_of id) checked w.page.boxes;
      legends_disabled = (id, not checked) ∷ w.page.legends_disabled;
    };
  })

  -- `uncheckAll(id)`, `checkAll(id)`
  pub uncheck_all : String → Report → Report
  unfolding toggle_all
  uncheck_all id = toggle_all id false

  pub check_all : String → Report → Report
  unfolding toggle_all
  check_all id = toggle_all id true

  -- The last handler of `$(document).ready`: three graphs are drawn when a page loads.
  pub ready : Report → Report
  ready w =
      refresh b f response_time_percentiles_steps false
        (refresh b f response_time_over_time_steps true (refresh b f hits_per_second_steps true w))

-- The events of a panel that `$(".collapse")` listens to.
pub data PanelEvent : Type 0 where
  shown hidden : PanelEvent

pub on_panel : Browser → Filters → Custom → PanelEvent → String → Report → Report
unfolding collapse
on_panel b f c shown id = collapse b f c id false
on_panel b f c hidden id = collapse b f c id true
