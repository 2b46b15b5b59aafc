-- ===== src/Report/Table.antt =====
-- The tables of the dashboard (dashboard.js under tools/jmeter/results/*-report/content/js). The
-- values of the cells are a parameter, with the printing that JavaScript does.
use Prim.Native.String.{String}
use text.Mathlib.Text.{◌==◌ as str_eq}
use high_performance_e_comme.Common.{
  ℕ, suc, ◌+◌, leb, Bool, true, false, not, ◌&&◌, ◌||◌, Option, none, some, List, [], ◌∷◌,
  if◌then◌else◌, get_elem?, ◌==◌,
}
use high_performance_e_comme.Report.Series.{Browser, Filters}

pub record HeaderCell : Type 0 where
  pub col_span : ℕ
  pub text : String
  pub sorts : Bool

abbrev group : ℕ → String → HeaderCell
group span text = record { col_span = span; text = text; sorts = false }

-- `summaryTableHeader(header)`
pub summary_table_header : List HeaderCell
summary_table_header =
    group 1 "Requests"
    ∷ group 3 "Executions"
    ∷ group 7 "Response Times (ms)"
    ∷ group 1 "Throughput"
    ∷ group 2 "Network (KB/sec)"
    ∷ []

abbrev pub columns : List HeaderCell → ℕ
columns [] = 0
columns (h ∷ hs) = h.col_span + columns hs

-- What the formatters call: `toFixed(digits)`, `+ '%'` and `formatDuration`, and a value as text.
pub record Values (V : Type 0) : Type 0 where
  pub to_fixed : ℕ → V → V
  pub percent : V → V
  pub duration : V → V
  pub text_of : V → String

pub record Item (V : Type 0) : Type 0 where
  pub cells : List V
  pub is_controller : Bool

pub record Info (V : Type 0) : Type 0 where
  pub supports_controllers_discrimination : Bool
  pub overall : Option (Item V)
  pub titles : List String
  pub items : List (Item V)

-- What `createTable` appends to the table: the grouping header, the titles, the overall row and the
-- rows of the body.
pub record Table (V : Type 0) : Type 0 where
  pub groups : List HeaderCell
  pub titles : List String
  pub overall : Option (List V)
  pub rows : List (List V)
  pub sort_list : List (ℕ × ℕ)

module _ {V : Type 0} (v : Values V) where
  -- The formatter of the Apdex table.
  pub apdex_formatter : ℕ → V → V
  apdex_formatter index item =
      if index == 0
      then v.to_fixed 3 item
      else if (index == 1) || (index == 2)
      then v.duration item
      else item

  -- The formatter of the statistics table.
  pub statistics_formatter : ℕ → V → V
  statistics_formatter index item =
      if index == 3
      then v.percent (v.to_fixed 2 item)
      else if (index == 4) || (leb 7 index && leb index 13)
      then v.to_fixed 2 item
      else item

  -- The formatter of the table of errors.
  pub errors_formatter : ℕ → V → V
  errors_formatter index item =
      if (index == 2) || (index == 3) then v.percent (v.to_fixed 2 item) else item

  -- One row, formatted cell by cell from a column on.
  pub format_row : (ℕ → V → V) → ℕ → List V → List V
  format_row formatter col [] = []
  format_row formatter col (x ∷ xs) = formatter col x ∷ format_row formatter (suc col) xs

  -- `item.data[seriesIndex]` as a text; a cell that is not there reads "undefined".
  abbrev cell_text : Option ℕ → List V → String
  cell_text none cells = "undefined"
  cell_text (some i) cells = elim (get_elem? cells i) [ none ↦ "undefined" | some x ↦ v.text_of x ]

  -- The condition of the loop over the items.
  pub is_shown : Browser → Filters → Info V → Option ℕ → Item V → Bool
  is_shown b f info series_index item =
      (str_eq f.series_filter ""
        || f.filters_only_sample_series && not info.supports_controllers_discrimination
        || b.matches f.series_filter (cell_text series_index item.cells))
      && (not f.show_controllers_only
          || not info.supports_controllers_discrimination
          || item.is_controller)

  abbrev is_nil : List V → Bool
  is_nil [] = true
  is_nil (_ ∷ _) = false

  pub body_rows :
      Browser → Filters → Info V → (ℕ → V → V) → Option ℕ → List (Item V) → List (List V)
  unfolding is_shown format_row
  body_rows b f info formatter series_index [] = []
  body_rows b f info formatter series_index (item ∷ items) =
      let rest = body_rows b f info formatter series_index items in
      if is_shown b f info series_index item && not (is_nil item.cells)
      then format_row formatter 0 item.cells ∷ rest
      else rest

  abbrev overall_row : (ℕ → V → V) → Option (Item V) → Option (List V)
  overall_row formatter none = none
  overall_row formatter (some o) = some (format_row formatter 0 o.cells)

  -- `createTable(table, info, formatter, defaultSorts, seriesIndex, headerCreator)`
  pub create_table :
      Browser → Filters → Info V → (ℕ → V → V) → List (ℕ × ℕ) → Option ℕ → List HeaderCell → Table V
  unfolding body_rows format_row
  create_table b f info formatter default_sorts series_index groups = record {
    groups = groups;
    titles = info.titles;
    overall = overall_row formatter info.overall;
    rows = body_rows b f info formatter series_index info.items;
    sort_list = default_sorts;
  }

-- The two slices of the summary pie.
pub record Slice : Type 0 where
  pub label : String
  pub share : ℕ
  pub color : String

pub summary_dataset : ℕ → ℕ → List Slice
summary_dataset ko_percent ok_percent =
    record { label = "FAIL"; share = ko_percent; color = "#FF6347" }
    ∷ record { label = "PASS"; share = ok_percent; color = "#9ACD32" }
    ∷ []

-- The four tables of the page's handler, for the data that the report was generated with.
pub record Dashboard (V : Type 0) : Type 0 where
  pub apdex : Info V
  pub statistics : Info V
  pub errors : Info V
  pub top5_errors : Info V

pub dashboard_tables : {V : Type 0} → Values V → Browser → Filters → Dashboard V → List (Table V)
unfolding create_table apdex_formatter statistics_formatter errors_formatter summary_table_header
dashboard_tables v b f d =
    create_table v b f d.apdex (apdex_formatter v) ((0, 0) ∷ []) (some 3) []
    ∷ create_table v b f d.statistics (statistics_formatter v) ((0, 0) ∷ []) (some 0)
        summary_table_header
    ∷ create_table v b f d.errors (errors_formatter v) ((1, 1) ∷ []) none []
    ∷ create_table v b f d.top5_errors (λ _ item. item) ((0, 0) ∷ []) (some 0) []
    ∷ []
