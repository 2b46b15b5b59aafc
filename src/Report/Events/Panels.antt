-- ===== src/Report/Events/Panels.antt =====
-- Opening a panel again (collapse in graph.js, under tools/jmeter/results/*-report/content/js).
use Prim.Native.String.{String}
use high_performance_e_comme.Common.{
  ◌≡◌, refl, ◌∙◌, ap, inl, inr, Bool, true, false, some, Bool-cases,
}
use high_performance_e_comme.Report.Series.{GraphData, Browser, Filters}
use high_performance_e_comme.Report.Page.{
  Graph, drawn_on, Page, Report, Refresh, is_graph, prepared, refresh,
}
use high_performance_e_comme.Report.Page.Drawing.{refresh-cases, refresh-empty_again}
use high_performance_e_comme.Report.Events.{
  Custom, standard, panel_target, show_panel, set_chevron, jump, collapse,
}

module _ (b : Browser) (f : Filters) (c : Custom) (r : Refresh) (fix : Bool) where
  abbrev show : Report → Report
  show = show_panel b f c (standard r fix)

  show_panel-drawn :
      (w : Report)
      → is_graph r.infos.flot w.page ≡ true
      → ((show w).page.plots ≡ w.page.plots) × ((g : Graph) → (show w).graphs g ≡ w.graphs g)
  unfolding show_panel
  show_panel-drawn w drawn = (rw drawn refl, λ g. rw drawn refl)

  -- Showing a panel again, in a report with the data and the plots that the first time left.
  show_panel-again :
      (w w' : Report)
      → w'.graphs ≡ (show w).graphs
      → w'.page.plots ≡ (show w).page.plots
      → ((show w').page.plots ≡ w'.page.plots) × ((g : Graph) → (show w').graphs g ≡ w'.graphs g)
  unfolding show_panel
  show_panel-again w w' graphs plots = elim (Bool-cases (is_graph r.infos.flot w.page)) [
    | inl drawn ↦
        let same : w'.page.plots ≡ w.page.plots = plots ∙ (rw drawn refl) in
        show_panel-drawn w' (ap (drawn_on r.infos.flot) same ∙ drawn)
    | inr fresh ↦
        let plots' : w'.page.plots ≡ (refresh b f r fix w).page.plots = plots ∙ (rw fresh refl) in
        elim (refresh-cases b f r fix w) [
          | inr (_, drawn, _) ↦ show_panel-drawn w' (ap (drawn_on r.infos.flot) plots' ∙ drawn)
          | inl (body, e, page, data_left) ↦
              let left : w'.graphs r.infos.graph ≡ prepared b f r w =
                ap (λ (h : Graph → GraphData). h r.infos.graph) graphs ∙ (rw fresh data_left) in
              let still : is_graph r.infos.flot w'.page ≡ false =
                ap (drawn_on r.infos.flot) (plots' ∙ ap (λ (q : Page). q.plots) page) ∙ fresh in
              rw still (refresh-empty_again b f r fix w w' body left e)
        ]
  ]

-- Opening a panel of a graph a second time draws nothing and leaves the data of every graph as the
-- first time left them, whether the graph had series to draw or not; so time stamps are not shifted
-- twice.
pub collapse-again :
    (b : Browser) (f : Filters) (c : Custom) (id : String) (r : Refresh) (fix : Bool)
    (anchor : String) (w : Report)
    → panel_target id ≡ some (standard r fix, anchor)
    → let once = collapse b f c id false w in
      let twice = collapse b f c id false once in
      (twice.page.plots ≡ once.page.plots) × ((g : Graph) → twice.graphs g ≡ once.graphs g)
unfolding collapse
collapse-again b f c id r fix anchor w e = rw e (
    show_panel-again b f c r fix (set_chevron id true w)
      (set_chevron id true
        (jump anchor (show_panel b f c (standard r fix) (set_chevron id true w))))
      refl refl)
