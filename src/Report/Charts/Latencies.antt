-- ===== src/Report/Charts/Latencies.antt =====
-- Latencies and connect times over time: graph.js under tools/jmeter/results/*-report/content/js. `..._infos` is
-- the object with the options and the drawing, `..._steps` its refresh function.
use high_performance_e_comme.Common.{true, false, none, some, [], ◌∷◌}
use high_performance_e_comme.Report.Format.{
  lit, elapsed_time_label, connect_time_label, time_format,
}
use high_performance_e_comme.Report.Series.{GraphData}
use high_performance_e_comme.Report.Options.{
  Options, template, lines_points, axis, time_axis, legend_in,
}
use high_performance_e_comme.Report.Page.{Graph, Infos, Refresh}

latencies_over_time_options : GraphData → Options
latencies_over_time_options d = record {
  series = lines_points true true;
  legend = legend_in 2 "#legendLatenciesOverTime";
  xaxis = time_axis (time_format d.result.granularity) (elapsed_time_label d.result.granularity);
  yaxis = axis (lit "Average response latencies in ms" ∷ []);
  bars = none;
  grid_hoverable = true;
  selection_mode = some "xy";
  tooltip = true;
  tooltip_content = template "%s : at %x Average latency was %y ms";
  colors = [];
  canvas = false;
}

unfoldable pub latencies_over_time_infos : Infos
unfolding latencies_over_time_options
latencies_over_time_infos = record {
  graph = Graph.latencies_over_time;
  get_options = latencies_over_time_options;
  choices = "#choicesLatenciesOverTime";
  flot = "#flotLatenciesOverTime";
  overview = some "#overviewLatenciesOverTime";
  sets_ticks = false;
}

abbrev pub latencies_over_time_steps : Refresh
latencies_over_time_steps = record {
  infos = latencies_over_time_infos;
  body = some "#bodyLatenciesOverTime";
  fixes = true;
  no_match_color = false;
  ignore_filter = false;
  source = "#footerLatenciesOverTime .legendColorBox > div";
}

connect_time_over_time_options : GraphData → Options
connect_time_over_time_options d = record {
  series = lines_points true true;
  legend = legend_in 2 "#legendConnectTimeOverTime";
  xaxis = time_axis (time_format d.result.granularity) (connect_time_label d.result.granularity);
  yaxis = axis (lit "Average Connect Time in ms" ∷ []);
  bars = none;
  grid_hoverable = true;
  selection_mode = some "xy";
  tooltip = true;
  tooltip_content = template "%s : at %x Average connect time was %y ms";
  colors = [];
  canvas = false;
}

unfoldable pub connect_time_over_time_infos : Infos
unfolding connect_time_over_time_options
connect_time_over_time_infos = record {
  graph = Graph.connect_time_over_time;
  get_options = connect_time_over_time_options;
  choices = "#choicesConnectTimeOverTime";
  flot = "#flotConnectTimeOverTime";
  overview = some "#overviewConnectTimeOverTime";
  sets_ticks = false;
}

abbrev pub connect_time_over_time_steps : Refresh
connect_time_over_time_steps = record {
  infos = connect_time_over_time_infos;
  body = some "#bodyConnectTimeOverTime";
  fixes = true;
  no_match_color = false;
  ignore_filter = false;
  source = "#footerConnectTimeOverTime .legendColorBox > div";
}
