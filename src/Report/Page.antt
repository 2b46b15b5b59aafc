-- ===== src/Report/Page.antt =====
-- The page and its graphs (dashboard-commons.js and graph.js under
-- tools/jmeter/results/*-report/content/js). jQuery and flot are not modelled: a call that changes the
-- page is recorded, and what the code asks of the page is read back from the records. flot keeps a
-- plot on the element that it drew on, which is what `isGraph` asks for.
pub mod Drawing
pub mod Choices
pub mod Frame
use Prim.Native.String.{String}
use text.Mathlib.Text.{◌==◌ as str_eq}
use mathlib.Core.Logic.{ite}
use high_performance_e_comme.Common.{
  ℕ, Bool, true, false, not, ◌&&◌, ◌||◌, Option, none, some, List, [], ◌∷◌, ◌++◌, map, select,
  if◌then◌else◌, ◌==◌,
}
use high_performance_e_comme.Report.Series.{
  Series, GraphResult, GraphData, Browser, Filters, prepare_series, fix_time_stamps, prepare_data,
  legend_keys,
}
use high_performance_e_comme.Report.Options.{Options, prepare_options, prepare_overview_options}

-- The graphs of the report.
pub data Graph : Type 0 where
  response_time_percentiles response_time_distribution : Graph
  synthetic_response_time_distribution active_threads_over_time : Graph
  time_vs_threads bytes_throughput_over_time response_times_over_time : Graph
  latencies_over_time connect_time_over_time : Graph
  response_time_percentiles_over_time response_time_vs_request : Graph
  latencies_vs_request hits_per_second codes_per_second : Graph
  transactions_per_second total_tps : Graph

pub Graph-discrete : Discrete Graph
Graph-discrete = hlevel

-- A call of `$.plot`.
pub record Plot : Type 0 where
  pub target : String
  pub dataset : List Series
  pub options : Options

-- A box of a legend: its container, its name, and whether it is checked.
pub record Box : Type 0 where
  pub container : String
  pub name : String
  pub checked : Bool

-- The calls, the latest first, and the boxes.
pub record Page : Type 0 where
  pub plots : List Plot
  pub boxes : List Box
  pub messages : List (String × String)
  pub zooms : List (String × String)
  pub colour_boxes : List (String × String)
  pub chevrons : List (String × Bool)
  pub legends_disabled : List (String × Bool)
  pub label_colors : List (String × String)
  pub location : String

pub record Report : Type 0 where
  pub graphs : Graph → GraphData
  pub page : Page

-- An `...Infos` object, without its data: the options, and what its `createGraph` draws on.
pub record Infos : Type 0 where
  pub graph : Graph
  pub get_options : GraphData → Options
  pub choices : String
  pub flot : String
  pub overview : Option String
  pub sets_ticks : Bool

abbrev pub drawn_on : String → List Plot → Bool
drawn_on selector [] = false
drawn_on selector (p ∷ ps) = str_eq p.target selector || drawn_on selector ps

-- `isGraph($(selector))`
abbrev pub is_graph : String → Page → Bool
is_graph selector page = drawn_on selector page.plots

-- `choiceContainer.find("input:checked")`, by name.
abbrev pub checked_names : String → List Box → List String
checked_names container [] = []
checked_names container (b ∷ bs) =
    let rest = checked_names container bs in
    if str_eq b.container container && b.checked then b.name ∷ rest else rest

-- `$.plot(...)`
abbrev pub plot : String → List Series → Options → Page → Page
plot target dataset options page = record page {
  plots = record { target = target; dataset = dataset; options = options } ∷ page.plots;
}

abbrev with_ticks : Infos → GraphData → Options → Options
with_ticks infos d o =
    if infos.sets_ticks
    then record o { xaxis = record (o.xaxis) { tick_list = some d.result.ticks } }
    else o

-- `infos.createGraph()`: the graph on the dataset of the checked boxes, and its overview.
pub create_graph : Infos → GraphData → Page → Page
create_graph infos d page =
    let dataset = prepare_data d.result.series (checked_names infos.choices page.boxes) in
    let options = with_ticks infos d (prepare_options (infos.get_options d) d) in
    let drawn = plot infos.flot dataset options page in
    elim infos.overview [
      | none ↦ drawn
      | some o ↦ plot o dataset (prepare_overview_options options) drawn
    ]

abbrev pub box_of : String → String → Box
box_of container name = record { container = container; name = name; checked = true }

-- `createLegend(choiceContainer, infos)`: one checked box for each key. The handlers that it binds
-- run later, as calls of their own.
pub create_legend : Browser → Infos → GraphData → Page → Page
create_legend b infos d page = record page {
  boxes = page.boxes ++ map (box_of infos.choices) (legend_keys b d.result.series);
}

-- `setGraphZoomable(graphSelector, overviewSelector)`: the binding. A graph with no overview has
-- none.
abbrev pub set_graph_zoomable : Infos → Page → Page
set_graph_zoomable infos page = elim infos.overview [
  | none ↦ page
  | some o ↦ record page { zooms = (infos.flot, o) ∷ page.zooms }
]

-- The last step of a first drawing: the colour boxes of the legend go to the list of choices.
abbrev pub clone_colour_boxes : String → Infos → Page → Page
clone_colour_boxes source infos page = record page {
  colour_boxes = (source, infos.choices) ∷ page.colour_boxes;
}

-- `setEmptyGraph(elementId)`, as a message for the element. In the page the message takes the place of
-- what the element had.
abbrev pub set_empty_graph : Filters → String → Page → Page
set_empty_graph f element page = record page {
  messages = (element, f.series_filter) ∷ page.messages;
}

-- The two ways that a `refresh...` function ends: draw again, or draw for the first time.
pub draw : Browser → String → Infos → GraphData → Page → Page
unfolding create_graph create_legend
draw b source infos d page =
    if is_graph infos.flot page
    then create_graph infos d page
    else clone_colour_boxes source infos
        (set_graph_zoomable infos (create_graph infos d (create_legend b infos d page)))

-- A `refresh...` function. `body` is the element for the message where the function tests for an
-- empty graph; `fixes` tells whether it takes the argument `fixTimestamps`.
pub record Refresh : Type 0 where
  pub infos : Infos
  pub body : Option String
  pub fixes : Bool
  pub no_match_color : Bool
  pub ignore_filter : Bool
  pub source : String

-- `if(infos.data.result.series.length == 0) { setEmptyGraph(...); return; }`
abbrev pub empty_message : Option String → List Series → Option String
empty_message none ss = none
empty_message (some body) [] = some body
empty_message (some body) (_ ∷ _) = none

abbrev pub set_data : Graph → GraphData → (Graph → GraphData) → Graph → GraphData
set_data g d old h = ite (Graph-discrete h g) d (old h)

-- The data after `prepareSeries`, and after `fixTimeStamps`.
pub prepared : Browser → Filters → Refresh → Report → GraphData
prepared b f r w = prepare_series b f r.no_match_color r.ignore_filter (w.graphs r.infos.graph)

pub fixed : Bool → Refresh → GraphData → GraphData
fixed fix_timestamps r d =
    if r.fixes && fix_timestamps
    then record d {
      result = record (d.result) { series = fix_time_stamps 3600000 d.result.series };
    }
    else d

-- The rest of a refresh function, by whether it returns early.
abbrev pub refresh_end :
    Browser → Filters → Refresh → Bool → Report → GraphData → Option String → Report
refresh_end b f r fix_timestamps w d (some element) = record {
  graphs = set_data r.infos.graph d w.graphs;
  page = set_empty_graph f element w.page;
}
refresh_end b f r fix_timestamps w d none =
    let d' = fixed fix_timestamps r d in
    record { graphs = set_data r.infos.graph d' w.graphs; page = draw b r.source r.infos d' w.page }

pub refresh : Browser → Filters → Refresh → Bool → Report → Report
refresh b f r fix_timestamps w =
    let d = prepared b f r w in
    refresh_end b f r fix_timestamps w d (empty_message r.body d.result.series)
