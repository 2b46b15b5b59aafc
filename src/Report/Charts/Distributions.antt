-- ===== src/Report/Charts/Distributions.antt =====
-- The graphs of how response times are distributed: graph.js under tools/jmeter/results/*-report/content/js. `..._infos` is
-- the object with the options and the drawing, `..._steps` its refresh function.
use high_performance_e_comme.Common.{◌+◌, ◌*◌, true, false, none, some, [], ◌∷◌}
use high_performance_e_comme.Common.Int.{pos, negsuc}
use high_performance_e_comme.Report.Format.{num, lit}
use high_performance_e_comme.Report.Series.{GraphData}
use high_performance_e_comme.Report.Options.{
  Options, template, formatter, no_series_options, axis, legend_in,
}
use high_performance_e_comme.Report.Page.{Graph, Infos, Refresh}

response_time_percentiles_options : GraphData → Options
response_time_percentiles_options d = record {
  series = record no_series_options { points = some (record { show = false; radius = none }) };
  legend = legend_in 2 "#legendResponseTimePercentiles";
  xaxis = record (axis (lit "Percentiles" ∷ [])) { tick_decimals = some 1 };
  yaxis = axis (lit "Percentile value in ms" ∷ []);
  bars = none;
  grid_hoverable = true;
  selection_mode = some "xy";
  tooltip = true;
  tooltip_content = template "%s : %x.2 percentile was %y ms";
  colors = [];
  canvas = false;
}

unfoldable pub response_time_percentiles_infos : Infos
unfolding response_time_percentiles_options
response_time_percentiles_infos = record {
  graph = Graph.response_time_percentiles;
  get_options = response_time_percentiles_options;
  choices = "#choicesResponseTimePercentiles";
  flot = "#flotResponseTimesPercentiles";
  overview = some "#overviewResponseTimesPercentiles";
  sets_ticks = false;
}

abbrev pub response_time_percentiles_steps : Refresh
response_time_percentiles_steps = record {
  infos = response_time_percentiles_infos;
  body = some "#bodyResponseTimePercentiles";
  fixes = false;
  no_match_color = false;
  ignore_filter = false;
  source = "#bodyResponseTimePercentiles .legendColorBox > div";
}

response_time_distribution_options : GraphData → Options
response_time_distribution_options d = record {
  series = no_series_options;
  legend = legend_in 2 "#legendResponseTimeDistribution";
  xaxis = axis (lit "Response times in ms" ∷ []);
  yaxis = axis (lit "Number of responses" ∷ []);
  bars =
      some (record {
        show = true;
        align = none;
        bar_width = d.result.granularity * 1000;
        fill = none;
      });
  grid_hoverable = true;
  selection_mode = none;
  tooltip = true;
  tooltip_content = formatter λ label x y.
      num y
      ∷ lit " responses for "
      ∷ lit label
      ∷ lit " were between "
      ∷ num x
      ∷ lit " and "
      ∷ num (x + d.result.granularity)
      ∷ lit " ms"
      ∷ [];
  colors = [];
  canvas = false;
}

unfoldable pub response_time_distribution_infos : Infos
unfolding response_time_distribution_options
response_time_distribution_infos = record {
  graph = Graph.response_time_distribution;
  get_options = response_time_distribution_options;
  choices = "#choicesResponseTimeDistribution";
  flot = "#flotResponseTimeDistribution";
  overview = none;
  sets_ticks = false;
}

abbrev pub response_time_distribution_steps : Refresh
response_time_distribution_steps = record {
  infos = response_time_distribution_infos;
  body = some "#bodyResponseTimeDistribution";
  fixes = false;
  no_match_color = false;
  ignore_filter = false;
  source = "#footerResponseTimeDistribution .legendColorBox > div";
}

synthetic_response_time_distribution_options : GraphData → Options
synthetic_response_time_distribution_options d = record {
  series = no_series_options;
  legend = legend_in 2 "#legendSyntheticResponseTimeDistribution";
  xaxis = record (axis (lit "Response times ranges" ∷ [])) {
    tick_length = some 0;
    min = some (negsuc 499);
    max = some (pos 3500);
  };
  yaxis = axis (lit "Number of responses" ∷ []);
  bars = some (record { show = true; align = some "center"; bar_width = 250; fill = some 750 });
  grid_hoverable = true;
  selection_mode = none;
  tooltip = true;
  tooltip_content = formatter λ label x y. num y ∷ lit " " ∷ lit label ∷ [];
  colors = [];
  canvas = false;
}

unfoldable pub synthetic_response_time_distribution_infos : Infos
unfolding synthetic_response_time_distribution_options
synthetic_response_time_distribution_infos = record {
  graph = Graph.synthetic_response_time_distribution;
  get_options = synthetic_response_time_distribution_options;
  choices = "#choicesSyntheticResponseTimeDistribution";
  flot = "#flotSyntheticResponseTimeDistribution";
  overview = none;
  sets_ticks = true;
}

abbrev pub synthetic_response_time_distribution_steps : Refresh
synthetic_response_time_distribution_steps = record {
  infos = synthetic_response_time_distribution_infos;
  body = none;
  fixes = false;
  no_match_color = true;
  ignore_filter = false;
  source = "#footerSyntheticResponseTimeDistribution .legendColorBox > div";
}
