-- ===== src/Report/Export.antt =====
-- The pie of the dashboard and the export of a graph (dashboard.js, and exportToPNG in
-- dashboard-commons.js, under tools/jmeter/results/*-report/content/js).
use Prim.Native.String.{String, ◌++◌ as append}
use high_performance_e_comme.Common.{ℕ, Bool, true, List, if◌then◌else◌}
use high_performance_e_comme.Report.Table.{Slice, summary_dataset}

-- The options of the pie. Radii are in quarters and the opacity in tenths.
pub record PieLabel : Type 0 where
  pub show : Bool
  pub radius : ℕ
  pub background_opacity : ℕ
  pub background_color : String

pub record PieOptions : Type 0 where
  pub show : Bool
  pub radius : ℕ
  pub label : PieLabel
  pub legend_show : Bool

-- A call of `$.plot` for a pie.
pub record PiePlot : Type 0 where
  pub target : String
  pub dataset : List Slice
  pub options : PieOptions

pub pie_options : PieOptions
pie_options = record {
  show = true;
  radius = 4;
  label = record { show = true; radius = 3; background_opacity = 5; background_color = "#000" };
  legend_show = true;
}

-- The label of a slice: `percent` is the text of `Math.round10(series.percent, -2)`.
pub pie_label : String → String → String
pie_label label percent =
    append "<div style=\"font-size:8pt;text-align:center;padding:2px;color:white;\">"
      (append label (append "<br/>" (append percent "%</div>")))

pub summary_pie : ℕ → ℕ → PiePlot
unfolding pie_options
summary_pie ko_percent ok_percent = record {
  target = "#flot-requests-summary";
  dataset = summary_dataset ko_percent ok_percent;
  options = pie_options;
}

-- What the browser and flot's canvas give: `toDataURL()` of a graph, `replace` of the first
-- occurrence, and whether an `<a>` element has the attribute "download".
pub record Canvas : Type 0 where
  pub data_url : String → String
  pub replace : String → String → String → String
  pub has_download : Bool

pub data Saved : Type 0 where
  downloads : String → String → Saved
  navigates : String → Saved

-- `exportToPNG(graphName, target)`: the link gets a file's name and the image, or the page becomes
-- the image.
pub export_to_png : Canvas → String → Saved
export_to_png c graph_name =
    let image = c.replace "image/png" "image/octet-stream" (c.data_url graph_name) in
    if c.has_download then downloads (append graph_name ".png") image else navigates image
