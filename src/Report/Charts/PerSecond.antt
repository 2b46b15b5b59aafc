-- ===== src/Report/Charts/PerSecond.antt =====
-- The graphs of rates per second: graph.js under tools/jmeter/results/*-report/content/js. `..._infos` is
-- the object with the options and the drawing, `..._steps` its refresh function.
use high_performance_e_comme.Common.{true, false, none, some, [], ◌∷◌}
use high_performance_e_comme.Report.Format.{lit, elapsed_time_label, time_format}
use high_performance_e_comme.Report.Series.{GraphData}
use high_performance_e_comme.Report.Options.{
  Options, template, lines_points, axis, time_axis, legend_in,
}
use high_performance_e_comme.Report.Page.{Graph, Infos, Refresh}

hits_per_second_options : GraphData → Options
hits_per_second_options d = record {
  series = lines_points true true;
  legend = legend_in 2 "#legendHitsPerSecond";
  xaxis = time_axis (time_format d.result.granularity) (elapsed_time_label d.result.granularity);
  yaxis = axis (lit "Number of hits / sec" ∷ []);
  bars = none;
  grid_hoverable = true;
  selection_mode = some "xy";
  tooltip = true;
  tooltip_content = template "%s at %x was %y.2 hits/sec";
  colors = [];
  canvas = false;
}

unfoldable pub hits_per_second_infos : Infos
unfolding hits_per_second_options
hits_per_second_infos = record {
  graph = Graph.hits_per_second;
  get_options = hits_per_second_options;
  choices = "#choicesHitsPerSecond";
  flot = "#flotHitsPerSecond";
  overview = some "#overviewHitsPerSecond";
  sets_ticks = false;
}

abbrev pub hits_per_second_steps : Refresh
hits_per_second_steps = record {
  infos = hits_per_second_infos;
  body = none;
  fixes = true;
  no_match_color = false;
  ignore_filter = false;
  source = "#footerHitsPerSecond .legendColorBox > div";
}

codes_per_second_options : GraphData → Options
codes_per_second_options d = record {
  series = lines_points true true;
  legend = legend_in 2 "#legendCodesPerSecond";
  xaxis = time_axis (time_format d.result.granularity) (elapsed_time_label d.result.granularity);
  yaxis = axis (lit "Number of responses / sec" ∷ []);
  bars = none;
  grid_hoverable = true;
  selection_mode = some "xy";
  tooltip = true;
  tooltip_content = template "Number of Response Codes %s at %x was %y.2 responses / sec";
  colors = [];
  canvas = false;
}

unfoldable pub codes_per_second_infos : Infos
unfolding codes_per_second_options
codes_per_second_infos = record {
  graph = Graph.codes_per_second;
  get_options = codes_per_second_options;
  choices = "#choicesCodesPerSecond";
  flot = "#flotCodesPerSecond";
  overview = some "#overviewCodesPerSecond";
  sets_ticks = false;
}

abbrev pub codes_per_second_steps : Refresh
codes_per_second_steps = record {
  infos = codes_per_second_infos;
  body = none;
  fixes = true;
  no_match_color = false;
  ignore_filter = false;
  source = "#footerCodesPerSecond .legendColorBox > div";
}

transactions_per_second_options : GraphData → Options
transactions_per_second_options d = record {
  series = lines_points true true;
  legend = legend_in 2 "#legendTransactionsPerSecond";
  xaxis = time_axis (time_format d.result.granularity) (elapsed_time_label d.result.granularity);
  yaxis = axis (lit "Number of transactions / sec" ∷ []);
  bars = none;
  grid_hoverable = true;
  selection_mode = some "xy";
  tooltip = true;
  tooltip_content = template "%s at %x was %y transactions / sec";
  colors = [];
  canvas = false;
}

unfoldable pub transactions_per_second_infos : Infos
unfolding transactions_per_second_options
transactions_per_second_infos = record {
  graph = Graph.transactions_per_second;
  get_options = transactions_per_second_options;
  choices = "#choicesTransactionsPerSecond";
  flot = "#flotTransactionsPerSecond";
  overview = some "#overviewTransactionsPerSecond";
  sets_ticks = false;
}

abbrev pub transactions_per_second_steps : Refresh
transactions_per_second_steps = record {
  infos = transactions_per_second_infos;
  body = some "#bodyTransactionsPerSecond";
  fixes = true;
  no_match_color = false;
  ignore_filter = false;
  source = "#footerTransactionsPerSecond .legendColorBox > div";
}

total_tps_options : GraphData → Options
total_tps_options d = record {
  series = lines_points true true;
  legend = legend_in 2 "#legendTotalTPS";
  xaxis = time_axis (time_format d.result.granularity) (elapsed_time_label d.result.granularity);
  yaxis = axis (lit "Number of transactions / sec" ∷ []);
  bars = none;
  grid_hoverable = true;
  selection_mode = some "xy";
  tooltip = true;
  tooltip_content = template "%s at %x was %y transactions / sec";
  colors = "#9ACD32" ∷ "#FF6347" ∷ [];
  canvas = false;
}

unfoldable pub total_tps_infos : Infos
unfolding total_tps_options
total_tps_infos = record {
  graph = Graph.total_tps;
  get_options = total_tps_options;
  choices = "#choicesTotalTPS";
  flot = "#flotTotalTPS";
  overview = some "#overviewTotalTPS";
  sets_ticks = false;
}

abbrev pub total_tps_steps : Refresh
total_tps_steps = record {
  infos = total_tps_infos;
  body = none;
  fixes = true;
  no_match_color = false;
  ignore_filter = true;
  source = "#footerTotalTPS .legendColorBox > div";
}
