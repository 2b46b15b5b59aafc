-- ===== src/Report/Charts/OverTime.antt =====
-- Threads, bytes and response times over time: graph.js under tools/jmeter/results/*-report/content/js. `..._infos` is
-- the object with the options and the drawing, `..._steps` its refresh function.
use high_performance_e_comme.Common.{true, false, none, some, [], ◌∷◌}
use high_performance_e_comme.Report.Format.{lit, elapsed_time_label, time_format}
use high_performance_e_comme.Report.Series.{GraphData}
use high_performance_e_comme.Report.Options.{
  Options, template, no_series_options, lines_points, axis, time_axis, legend_in,
}
use high_performance_e_comme.Report.Page.{Graph, Infos, Refresh}

active_threads_over_time_options : GraphData → Options
active_threads_over_time_options d = record {
  series = record no_series_options {
    stack = some true;
    lines = some (record { show = some true; fill = some true; line_width = none });
    points = some (record { show = true; radius = none });
  };
  legend = legend_in 6 "#legendActiveThreadsOverTime";
  xaxis = time_axis (time_format d.result.granularity) (elapsed_time_label d.result.granularity);
  yaxis = axis (lit "Number of active threads" ∷ []);
  bars = none;
  grid_hoverable = true;
  selection_mode = some "xy";
  tooltip = true;
  tooltip_content = template "%s : At %x there were %y active threads";
  colors = [];
  canvas = false;
}

unfoldable pub active_threads_over_time_infos : Infos
unfolding active_threads_over_time_options
active_threads_over_time_infos = record {
  graph = Graph.active_threads_over_time;
  get_options = active_threads_over_time_options;
  choices = "#choicesActiveThreadsOverTime";
  flot = "#flotActiveThreadsOverTime";
  overview = some "#overviewActiveThreadsOverTime";
  sets_ticks = false;
}

abbrev pub active_threads_over_time_steps : Refresh
active_threads_over_time_steps = record {
  infos = active_threads_over_time_infos;
  body = none;
  fixes = true;
  no_match_color = false;
  ignore_filter = false;
  source = "#footerActiveThreadsOverTime .legendColorBox > div";
}

bytes_throughput_over_time_options : GraphData → Options
bytes_throughput_over_time_options d = record {
  series = lines_points true true;
  legend = legend_in 2 "#legendBytesThroughputOverTime";
  xaxis = time_axis (time_format d.result.granularity) (elapsed_time_label d.result.granularity);
  yaxis = axis (lit "Bytes / sec" ∷ []);
  bars = none;
  grid_hoverable = true;
  selection_mode = some "xy";
  tooltip = true;
  tooltip_content = template "%s at %x was %y";
  colors = [];
  canvas = false;
}

unfoldable pub bytes_throughput_over_time_infos : Infos
unfolding bytes_throughput_over_time_options
bytes_throughput_over_time_infos = record {
  graph = Graph.bytes_throughput_over_time;
  get_options = bytes_throughput_over_time_options;
  choices = "#choicesBytesThroughputOverTime";
  flot = "#flotBytesThroughputOverTime";
  overview = some "#overviewBytesThroughputOverTime";
  sets_ticks = false;
}

abbrev pub bytes_throughput_over_time_steps : Refresh
bytes_throughput_over_time_steps = record {
  infos = bytes_throughput_over_time_infos;
  body = none;
  fixes = true;
  no_match_color = false;
  ignore_filter = false;
  source = "#footerBytesThroughputOverTime .legendColorBox > div";
}

response_times_over_time_options : GraphData → Options
response_times_over_time_options d = record {
  series = lines_points true true;
  legend = legend_in 2 "#legendResponseTimesOverTime";
  xaxis = time_axis (time_format d.result.granularity) (elapsed_time_label d.result.granularity);
  yaxis = axis (lit "Average response time in ms" ∷ []);
  bars = none;
  grid_hoverable = true;
  selection_mode = some "xy";
  tooltip = true;
  tooltip_content = template "%s : at %x Average response time was %y ms";
  colors = [];
  canvas = false;
}

unfoldable pub response_times_over_time_infos : Infos
unfolding response_times_over_time_options
response_times_over_time_infos = record {
  graph = Graph.response_times_over_time;
  get_options = response_times_over_time_options;
  choices = "#choicesResponseTimesOverTime";
  flot = "#flotResponseTimesOverTime";
  overview = some "#overviewResponseTimesOverTime";
  sets_ticks = false;
}

abbrev pub response_time_over_time_steps : Refresh
response_time_over_time_steps = record {
  infos = response_times_over_time_infos;
  body = some "#bodyResponseTimeOverTime";
  fixes = true;
  no_match_color = false;
  ignore_filter = false;
  source = "#footerResponseTimesOverTime .legendColorBox > div";
}

response_time_percentiles_over_time_options : GraphData → Options
response_time_percentiles_over_time_options d = record {
  series = record no_series_options {
    lines = some (record { show = some true; fill = some true; line_width = none });
    points = some (record { show = true; radius = none });
  };
  legend = legend_in 2 "#legendResponseTimePercentilesOverTime";
  xaxis = time_axis (time_format d.result.granularity) (elapsed_time_label d.result.granularity);
  yaxis = axis (lit "Response Time in ms" ∷ []);
  bars = none;
  grid_hoverable = true;
  selection_mode = some "xy";
  tooltip = true;
  tooltip_content = template "%s : at %x Response time was %y ms";
  colors = [];
  canvas = false;
}

unfoldable pub response_time_percentiles_over_time_infos : Infos
unfolding response_time_percentiles_over_time_options
response_time_percentiles_over_time_infos = record {
  graph = Graph.response_time_percentiles_over_time;
  get_options = response_time_percentiles_over_time_options;
  choices = "#choicesResponseTimePercentilesOverTime";
  flot = "#flotResponseTimePercentilesOverTime";
  overview = some "#overviewResponseTimePercentilesOverTime";
  sets_ticks = false;
}

abbrev pub response_time_percentiles_over_time_steps : Refresh
response_time_percentiles_over_time_steps = record {
  infos = response_time_percentiles_over_time_infos;
  body = none;
  fixes = true;
  no_match_color = false;
  ignore_filter = false;
  source = "#footerResponseTimePercentilesOverTime .legendColorBox > div";
}
