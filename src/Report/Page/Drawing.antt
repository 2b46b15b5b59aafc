-- ===== src/Report/Page/Drawing.antt =====
-- What a refresh draws (dashboard-commons.js and graph.js under
-- tools/jmeter/results/*-report/content/js).
use Prim.Native.String.{String}
use text.Mathlib.TextPositions.{eq_refl}
use high_performance_e_comme.Common.{
  ◌≡◌, refl, sym, ap, ◌∙◌, inl, inr, Bool, true, none, some, arith, Bool-cases, Option-cases, ◌⊎◌,
}
use high_performance_e_comme.Report.Series.{GraphData, Browser, Filters, prepare_series}
use high_performance_e_comme.Report.Series.Preparation.{prepare_series-idempotent}
use high_performance_e_comme.Report.Page.{
  Graph, Graph-discrete, Infos, Page, Report, Refresh, is_graph, create_graph, create_legend, draw,
  empty_message, set_data, set_empty_graph, prepared, fixed, refresh,
}
use mathlib.Core.Logic.{if_pos, if_neg}

create_graph-drawn :
    (infos : Infos) (d : GraphData) (page : Page)
    → is_graph infos.flot (create_graph infos d page) ≡ true
unfolding create_graph
create_graph-drawn infos d page = elim (Option-cases infos.overview) [
  | inl alone ↦ ground (arith, eq_refl infos.flot)
  | inr (o, e) ↦ ground (arith, eq_refl infos.flot)
]

draw-drawn :
    (b : Browser) (source : String) (infos : Infos) (d : GraphData) (page : Page)
    → is_graph infos.flot (draw b source infos d page) ≡ true
unfolding draw
draw-drawn b source infos d page = elim (Bool-cases (is_graph infos.flot page)) [
  | inl again ↦ rw again (create_graph-drawn infos d page)
  | inr first ↦ elim (Option-cases infos.overview) [
    | inl alone ↦ ground (arith, create_graph-drawn infos d (create_legend b infos d page))
    | inr (o, e) ↦ ground (arith, create_graph-drawn infos d (create_legend b infos d page))
  ]
]

pub set_data_self : (g : Graph) (d : GraphData) (old : Graph → GraphData) → set_data g d old g ≡ d
set_data_self g d old = if_pos (Graph-discrete g g) refl d (old g)

module _ (b : Browser) (f : Filters) (r : Refresh) (fix : Bool) (w : Report) where
  -- A refresh ends in one of two ways. Where the page tests for series and the prepared data has
  -- none, it shows the message of the graph, draws nothing and keeps the prepared data; otherwise
  -- the graph is drawn, and its data are the prepared data with the time stamps shifted.
  pub refresh-cases :
      ((body : String) × (empty_message r.body (prepared b f r w).result.series ≡ some body)
        × ((refresh b f r fix w).page ≡ set_empty_graph f body w.page)
        × ((refresh b f r fix w).graphs r.infos.graph ≡ prepared b f r w))
      ⊎ (empty_message r.body (prepared b f r w).result.series ≡ none)
        × (is_graph r.infos.flot (refresh b f r fix w).page ≡ true)
        × ((refresh b f r fix w).graphs r.infos.graph ≡ fixed fix r (prepared b f r w))
  unfolding refresh
  refresh-cases = elim (Option-cases (empty_message r.body (prepared b f r w).result.series)) [
    | inl nonempty ↦ inr (
        rw nonempty (
          refl,
          draw-drawn b r.source r.infos (fixed fix r (prepared b f r w)) w.page,
          set_data_self r.infos.graph (fixed fix r (prepared b f r w)) w.graphs,
        ))
    | inr (body, e) ↦
        inl (body, e, rw e refl, rw e (set_data_self r.infos.graph (prepared b f r w) w.graphs))
  ]

set_data_same :
    (g h : Graph) (d : GraphData) (old : Graph → GraphData) → d ≡ old g → set_data g d old h ≡ old h
set_data_same g h d old e = elim (Graph-discrete h g) [
  | yes same ↦ if_pos (Graph-discrete h g) same d (old h) ∙ e ∙ ap old (sym same)
  | no other ↦ if_neg (Graph-discrete h g) other d (old h)
]

module _ (b : Browser) (f : Filters) (r : Refresh) (fix : Bool) where
  -- A refresh that finds no series shows the message again and leaves all data.
  pub refresh-empty_again :
      (w w' : Report) (body : String)
      → w'.graphs r.infos.graph ≡ prepared b f r w
      → empty_message r.body (prepared b f r w).result.series ≡ some body
      → ((refresh b f r fix w').page.plots ≡ w'.page.plots)
        × ((g : Graph) → (refresh b f r fix w').graphs g ≡ w'.graphs g)
  unfolding refresh prepared
  refresh-empty_again w w' body same e =
      let again : prepared b f r w' ≡ prepared b f r w =
        ap (prepare_series b f r.no_match_color r.ignore_filter) same
        ∙ prepare_series-idempotent b f r.no_match_color r.ignore_filter (w.graphs r.infos.graph) in
      let empty = ap (λ (d : GraphData). empty_message r.body d.result.series) again ∙ e in
      (
        rw empty refl,
        λ g.
            rw empty
              (set_data_same r.infos.graph g (prepared b f r w') w'.graphs (again ∙ sym same)),
      )
