-- ===== src/Report/Series.antt =====
-- The series of a graph and their preparation:
-- tools/jmeter/results/*-report/content/js/dashboard-commons.js. Coordinates are natural numbers in a
-- unit fine enough for the chart; on a time axis they are milliseconds.
pub mod Preparation
use Prim.Native.String.{String}
use text.Mathlib.Text.{◌==◌ as str_eq}
use high_performance_e_comme.Common.{
  ℕ, zero, suc, ◌+◌, Bool, true, false, not, ◌&&◌, ◌||◌, Option, none, some, List, [], ◌∷◌, ◌++◌,
  map, leb, if◌then◌else◌, select,
}
use high_performance_e_comme.Common.Int.{ℤ, sub_ℕ, pos, negsuc, leb_ℤ}

abbrev pub Coord : Type 0
Coord = ℕ × ℕ

pub record Series : Type 0 where
  pub label : String
  pub points : List Coord
  pub is_controller : Bool
  pub is_overall : Bool
  pub color : Option ℕ

-- `data.result`, with the fields that the scripts read.
pub record GraphResult : Type 0 where
  pub series : List Series
  pub supports_controllers_discrimination : Bool
  pub granularity : ℕ
  pub ticks : List (ℕ × String)

-- `data.extraOptions`: a bound that is missing or not a number is `none`. Bounds of axes are in
-- thousandths.
pub record ExtraOptions : Type 0 where
  pub min_x : Option ℤ
  pub max_x : Option ℤ
  pub min_y : Option ℤ
  pub max_y : Option ℤ

pub record GraphData : Type 0 where
  pub result : GraphResult
  pub extra_options : Option ExtraOptions

-- What the scripts take from the browser and from jQuery: the case-insensitive test of a text by a
-- regular expression, whether one text comes after another in lower case, and `Array.sort`.
pub record Browser : Type 0 where
  pub matches : String → String → Bool
  pub comes_after : String → String → Bool
  pub sort : (String → String → ℤ) → List String → List String

-- The global variables of the scripts.
pub record Filters : Type 0 where
  pub show_controllers_only : Bool
  pub series_filter : String
  pub filters_only_sample_series : Bool

-- `compareByXCoordinate`
abbrev pub compare_by_x : Coord → Coord → ℤ
compare_by_x c d = sub_ℕ d.0 c.0

-- `series.data.sort(compareByXCoordinate)`: a stable sort.
pub insert_coord : Coord → List Coord → List Coord
insert_coord c [] = c ∷ []
insert_coord c (d ∷ ds) =
    if leb_ℤ (compare_by_x c d) (pos 0) then c ∷ d ∷ ds else d ∷ insert_coord c ds

pub sort_by_x : List Coord → List Coord
unfolding insert_coord
sort_by_x [] = []
sort_by_x (c ∷ cs) = insert_coord c (sort_by_x cs)

-- The last loop of `prepareSeries`: sort, and mark with the index.
pub mark_series : Bool → ℕ → List Series → List Series
unfolding sort_by_x
mark_series no_match_color index [] = []
mark_series no_match_color index (s ∷ ss) =
    record s { points = sort_by_x s.points; color = if no_match_color then s.color else some index }
    ∷ mark_series no_match_color (suc index) ss

-- The two filters of `prepareSeries`.
pub filter_series : Browser → Filters → Bool → GraphResult → List Series
filter_series b f ignore_filter result =
    let supports = result.supports_controllers_discrimination in
    let by_label =
      if not ignore_filter
        && not (str_eq f.series_filter "")
        && (not f.filters_only_sample_series || supports)
      then select (λ s. b.matches f.series_filter s.label) result.series
      else result.series in
    if supports && f.show_controllers_only then select (λ s. s.is_controller) by_label else by_label

-- `prepareSeries(data, noMatchColor, ignoreFilterParam)`
pub prepare_series : Browser → Filters → Bool → Bool → GraphData → GraphData
unfolding filter_series mark_series
prepare_series b f no_match_color ignore_filter d = record d {
  result = record (d.result) {
    series = mark_series no_match_color 0 (filter_series b f ignore_filter d.result);
  };
}

-- `fixTimeStamps(series, offset)`
abbrev pub shift_coord : ℕ → Coord → Coord
shift_coord offset (x, y) = (x + offset, y)

abbrev pub shift_series : ℕ → Series → Series
shift_series offset s = record s { points = map (shift_coord offset) s.points }

pub fix_time_stamps : ℕ → List Series → List Series
fix_time_stamps offset = map (shift_series offset)

-- The search of `prepareData`: the first series with the label.
unfoldable pub find_series : String → List Series → Option Series
find_series key [] = none
find_series key (s ∷ ss) = if str_eq s.label key then some s else find_series key ss

-- `prepareData`, for the names of the checked boxes. No caller customizes the series.
unfoldable pub prepare_data : List Series → List String → List Series
unfolding find_series
prepare_data series [] = []
prepare_data series (key ∷ keys) = elim (find_series key series) [
  | none ↦ prepare_data series keys
  | some s ↦ s ∷ prepare_data series keys
]

-- `sortAlphaCaseless`
pub sort_alpha_caseless : Browser → String → String → ℤ
sort_alpha_caseless b s t = if b.comes_after s t then pos 1 else negsuc 0

-- The keys of a legend, as `createLegend` sorts them.
pub legend_keys : Browser → List Series → List String
unfolding sort_alpha_caseless
legend_keys b series = b.sort (sort_alpha_caseless b) (map (λ s. s.label) series)
