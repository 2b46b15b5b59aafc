-- ===== src/Report/Zoom.antt =====
-- Zooming a graph and its overview (zoomPlot and the handlers of setGraphZoomable in
-- dashboard-commons.js, under tools/jmeter/results/*-report/content/js). The calls of flot are
-- recorded; coordinates are counted in 0.00001, the least width of a zoom.
use high_performance_e_comme.Common.{
  ℕ, zero, suc, ◌+◌, ◌<◌, ◌≡◌, refl, inl, inr, Bool, true, false, Option, none, some, List, [], ◌∷◌,
  ◌++◌, arith, ltb, if◌then◌else◌, Option-cases,
}

pub record Range : Type 0 where
  pub from : ℕ
  pub to : ℕ

-- The `ranges` of a selection, and the `min` and `max` of both axes.
pub record Ranges : Type 0 where
  pub xaxis : Range
  pub yaxis : Range

pub data Plot : Type 0 where
  the_graph the_overview : Plot

-- A call of flot; the last argument of `sets_selection` is `preventEvent`.
pub data Call : Type 0 where
  sets_axes : Plot → Ranges → Call
  redraws clears_selection : Plot → Call
  sets_selection : Plot → Ranges → Bool → Call

-- `zoomPlot(plot, xmin, xmax, ymin, ymax)`
pub zoom_plot : Plot → Ranges → List Call
zoom_plot plot ranges = sets_axes plot ranges ∷ redraws plot ∷ []

-- "clamp the zooming to prevent infinite zoom"
pub clamp_range : Range → Range
clamp_range r = if ltb r.to (r.from + 1) then record r { to = r.from + 1 } else r

pub clamp_ranges : Ranges → Ranges
unfolding clamp_range
clamp_ranges r = record { xaxis = clamp_range r.xaxis; yaxis = clamp_range r.yaxis }

-- The handlers of "plotselected".
pub on_selected : Plot → Ranges → List Call
unfolding clamp_ranges zoom_plot
on_selected the_graph ranges =
    zoom_plot the_graph (clamp_ranges ranges)
    ++ clears_selection the_graph ∷ sets_selection the_overview (clamp_ranges ranges) true ∷ []
on_selected the_overview ranges = sets_selection the_graph ranges false ∷ []

-- The handler of "plotunselected": the graph gets the axes of the overview.
pub on_unselected : Ranges → Plot → List Call
unfolding zoom_plot
on_unselected overview_axes the_graph = []
on_unselected overview_axes the_overview = zoom_plot the_graph overview_axes

-- What flot does on a call: the events that it raises, and the handlers that they run. `raised` gives
-- the ranges of the event for a selection, or none where flot finds it too small.
module _ (raised : Plot → Ranges → Option Ranges) (overview_axes : Ranges) where
  abbrev selected : Plot → Option Ranges → List Call
  selected plot none = []
  selected plot (some ranges) = on_selected plot ranges

  pub calls_after : Call → List Call
  unfolding on_selected on_unselected
  calls_after (sets_axes plot ranges) = []
  calls_after (redraws plot) = []
  calls_after (clears_selection plot) = on_unselected overview_axes plot
  calls_after (sets_selection plot ranges true) = []
  calls_after (sets_selection plot ranges false) = selected plot (raised plot ranges)

  -- The calls and those that they lead to, on fuel.
  pub perform : ℕ → List Call → Option (List Call)
  unfolding calls_after
  perform fuel [] = some []
  perform zero (c ∷ cs) = none
  perform (suc fuel) (c ∷ cs) = elim (perform fuel (calls_after c ++ cs)) [
    | none ↦ none
    | some log ↦ some (c ∷ log)
  ]

clamp_range-wide : (r : Range) → (clamp_range r).from < (clamp_range r).to
unfolding clamp_range
clamp_range-wide r = ground arith

-- A selection on the graph or on its overview leads to five calls at most, and not to an endless
-- exchange of events between the two.
perform-ends :
    (raised : Plot → Ranges → Option Ranges) (axes ranges : Ranges) (plot : Plot)
    → (log : List Call) × (perform raised axes 5 (on_selected plot ranges) ≡ some log)
unfolding perform
perform-ends raised axes ranges the_graph = (_, refl)
perform-ends raised axes ranges the_overview = elim (Option-cases (raised the_graph ranges)) [
  | inl small ↦ (on_selected the_overview ranges, rw (small, perform) refl)
  | inr (r, e) ↦ (on_selected the_overview ranges ++ on_selected the_graph r, rw (e, perform) refl)
]
