-- ===== src/Report/Charts/Versus.antt =====
-- The graphs against the load: graph.js under tools/jmeter/results/*-report/content/js. `..._infos` is
-- the object with the options and the drawing, `..._steps` its refresh function.
use high_performance_e_comme.Common.{true, false, none, some, [], ◌∷◌}
use high_performance_e_comme.Report.Format.{lit}
use high_performance_e_comme.Report.Series.{GraphData}
use high_performance_e_comme.Report.Options.{Options, template, lines_points, axis, legend_in}
use high_performance_e_comme.Report.Page.{Graph, Infos, Refresh}

time_vs_threads_options : GraphData → Options
time_vs_threads_options d = record {
  series = lines_points true true;
  legend = legend_in 2 "#legendTimeVsThreads";
  xaxis = axis (lit "Number of active threads" ∷ []);
  yaxis = axis (lit "Average response times in ms" ∷ []);
  bars = none;
  grid_hoverable = true;
  selection_mode = some "xy";
  tooltip = true;
  tooltip_content = template "%s: At %x.2 active threads, Average response time was %y.2 ms";
  colors = [];
  canvas = false;
}

unfoldable pub time_vs_threads_infos : Infos
unfolding time_vs_threads_options
time_vs_threads_infos = record {
  graph = Graph.time_vs_threads;
  get_options = time_vs_threads_options;
  choices = "#choicesTimeVsThreads";
  flot = "#flotTimesVsThreads";
  overview = some "#overviewTimesVsThreads";
  sets_ticks = false;
}

abbrev pub time_vs_threads_steps : Refresh
time_vs_threads_steps = record {
  infos = time_vs_threads_infos;
  body = some "#bodyTimeVsThreads";
  fixes = false;
  no_match_color = false;
  ignore_filter = false;
  source = "#footerTimeVsThreads .legendColorBox > div";
}

response_time_vs_request_options : GraphData → Options
response_time_vs_request_options d = record {
  series = lines_points false true;
  legend = legend_in 2 "#legendResponseTimeVsRequest";
  xaxis = axis (lit "Global number of requests per second" ∷ []);
  yaxis = axis (lit "Median Response Time in ms" ∷ []);
  bars = none;
  grid_hoverable = true;
  selection_mode = some "xy";
  tooltip = true;
  tooltip_content = template "%s : Median response time at %x req/s was %y ms";
  colors = "#9ACD32" ∷ "#FF6347" ∷ [];
  canvas = false;
}

unfoldable pub response_time_vs_request_infos : Infos
unfolding response_time_vs_request_options
response_time_vs_request_infos = record {
  graph = Graph.response_time_vs_request;
  get_options = response_time_vs_request_options;
  choices = "#choicesResponseTimeVsRequest";
  flot = "#flotResponseTimeVsRequest";
  overview = some "#overviewResponseTimeVsRequest";
  sets_ticks = false;
}

abbrev pub response_time_vs_request_steps : Refresh
response_time_vs_request_steps = record {
  infos = response_time_vs_request_infos;
  body = none;
  fixes = false;
  no_match_color = false;
  ignore_filter = false;
  source = "#footerResponseRimeVsRequest .legendColorBox > div";
}

latencies_vs_request_options : GraphData → Options
latencies_vs_request_options d = record {
  series = lines_points false true;
  legend = legend_in 2 "#legendLatencyVsRequest";
  xaxis = axis (lit "Global number of requests per second" ∷ []);
  yaxis = axis (lit "Median Latency in ms" ∷ []);
  bars = none;
  grid_hoverable = true;
  selection_mode = some "xy";
  tooltip = true;
  tooltip_content = template "%s : Median Latency time at %x req/s was %y ms";
  colors = "#9ACD32" ∷ "#FF6347" ∷ [];
  canvas = false;
}

unfoldable pub latencies_vs_request_infos : Infos
unfolding latencies_vs_request_options
latencies_vs_request_infos = record {
  graph = Graph.latencies_vs_request;
  get_options = latencies_vs_request_options;
  choices = "#choicesLatencyVsRequest";
  flot = "#flotLatenciesVsRequest";
  overview = some "#overviewLatenciesVsRequest";
  sets_ticks = false;
}

abbrev pub latencies_vs_request_steps : Refresh
latencies_vs_request_steps = record {
  infos = latencies_vs_request_infos;
  body = none;
  fixes = false;
  no_match_color = false;
  ignore_filter = false;
  source = "#footerLatenciesVsRequest .legendColorBox > div";
}
