-- ===== src/Report/Charts/Apart.antt =====
-- Whether the sixteen graphs of the report share anything (graph.js under
-- tools/jmeter/results/*-report/content/js).
use Prim.Native.String.{String}
use text.Mathlib.Text.{◌==◌ as str_eq}
use high_performance_e_comme.Common.{
  Bool, true, not, ◌&&◌, ◌||◌, Option, none, some, List, [], ◌∷◌, ℕ, ◌==◌,
}
use high_performance_e_comme.Report.Page.{
  Graph, Infos, response_time_percentiles, response_time_distribution,
  synthetic_response_time_distribution, active_threads_over_time, time_vs_threads,
  bytes_throughput_over_time, response_times_over_time, latencies_over_time, connect_time_over_time,
  response_time_percentiles_over_time, response_time_vs_request, latencies_vs_request,
  hits_per_second, codes_per_second, transactions_per_second, total_tps, Report, Refresh,
}
use high_performance_e_comme.Report.Charts.Distributions.{
  response_time_percentiles_steps, response_time_distribution_steps,
  synthetic_response_time_distribution_steps,
}
use high_performance_e_comme.Report.Charts.OverTime.{
  active_threads_over_time_steps, bytes_throughput_over_time_steps, response_time_over_time_steps,
  response_time_percentiles_over_time_steps,
}
use high_performance_e_comme.Report.Charts.Latencies.{
  latencies_over_time_steps, connect_time_over_time_steps,
}
use high_performance_e_comme.Report.Charts.Versus.{
  time_vs_threads_steps, response_time_vs_request_steps, latencies_vs_request_steps,
}
use high_performance_e_comme.Report.Charts.PerSecond.{
  hits_per_second_steps, codes_per_second_steps, transactions_per_second_steps, total_tps_steps,
}

-- The refresh function of a graph.
abbrev pub steps : Graph → Refresh
steps response_time_percentiles = response_time_percentiles_steps
steps response_time_distribution = response_time_distribution_steps
steps synthetic_response_time_distribution = synthetic_response_time_distribution_steps
steps active_threads_over_time = active_threads_over_time_steps
steps time_vs_threads = time_vs_threads_steps
steps bytes_throughput_over_time = bytes_throughput_over_time_steps
steps response_times_over_time = response_time_over_time_steps
steps latencies_over_time = latencies_over_time_steps
steps connect_time_over_time = connect_time_over_time_steps
steps response_time_percentiles_over_time = response_time_percentiles_over_time_steps
steps response_time_vs_request = response_time_vs_request_steps
steps latencies_vs_request = latencies_vs_request_steps
steps hits_per_second = hits_per_second_steps
steps codes_per_second = codes_per_second_steps
steps transactions_per_second = transactions_per_second_steps
steps total_tps = total_tps_steps

abbrev all_graphs : List Graph
all_graphs =
    response_time_percentiles ∷ response_time_distribution ∷ synthetic_response_time_distribution
    ∷ active_threads_over_time ∷ time_vs_threads ∷ bytes_throughput_over_time
    ∷ response_times_over_time ∷ latencies_over_time ∷ connect_time_over_time
    ∷ response_time_percentiles_over_time ∷ response_time_vs_request ∷ latencies_vs_request
    ∷ hits_per_second ∷ codes_per_second ∷ transactions_per_second ∷ total_tps ∷ []

abbrev is_apart_from : String → Option String → Bool
is_apart_from selector none = true
is_apart_from selector (some o) = not (str_eq o selector)

-- What one graph draws on and lists its choices in is not what another draws on and lists them in.
abbrev are_apart : Infos → Infos → Bool
are_apart i j =
    not (str_eq i.flot j.flot)
    && is_apart_from j.flot i.overview
    && not (str_eq i.choices j.choices)

-- The place of a graph among all.
abbrev place : Graph → ℕ
place response_time_percentiles = 0
place response_time_distribution = 1
place synthetic_response_time_distribution = 2
place active_threads_over_time = 3
place time_vs_threads = 4
place bytes_throughput_over_time = 5
place response_times_over_time = 6
place latencies_over_time = 7
place connect_time_over_time = 8
place response_time_percentiles_over_time = 9
place response_time_vs_request = 10
place latencies_vs_request = 11
place hits_per_second = 12
place codes_per_second = 13
place transactions_per_second = 14
place total_tps = 15

abbrev every : (Graph → Bool) → List Graph → Bool
every p [] = true
every p (g ∷ gs) = p g && every p gs

abbrev is_fine : Graph → Graph → Bool
is_fine g h = (place g == place h) || are_apart (steps g).infos (steps h).infos
