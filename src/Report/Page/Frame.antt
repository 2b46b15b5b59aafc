-- ===== src/Report/Page/Frame.antt =====
-- What a refresh leaves alone (dashboard-commons.js and graph.js under
-- tools/jmeter/results/*-report/content/js).
use Prim.Native.String.{String}
use text.Mathlib.Text.{◌==◌ as str_eq}
use mathlib.Core.Logic.{if_neg}
use mathlib.Core.Path.{subst}
use mathlib.Core.List.{append-nil}
use high_performance_e_comme.Common.{
  ◌≡◌, ◌≢◌, refl, ap, ◌∙◌, inl, inr, Bool, false, Bool-cases, Option-cases, Option, none, some,
  List, [], ◌∷◌, ◌++◌, map, arith,
}
use high_performance_e_comme.Report.Series.{GraphData, Browser, Filters, legend_keys}
use high_performance_e_comme.Report.Page.{
  Graph, Graph-discrete, Infos, Page, Box, box_of, Report, Refresh, is_graph, checked_names,
  create_graph, create_legend, draw, empty_message, prepared, fixed, refresh,
}

checked_names-append :
    (c : String) (bs ds : List Box)
    → checked_names c (bs ++ ds) ≡ checked_names c bs ++ checked_names c ds
checked_names-append c [] ds = refl
checked_names-append c (b ∷ bs) ds = ground (arith, checked_names-append c bs ds)

-- The boxes of another container.
checked_names-box_of :
    (c d : String) (names : List String)
    → str_eq d c ≡ false
    → checked_names c (map (box_of d) names) ≡ []
checked_names-box_of c d [] e = refl
checked_names-box_of c d (n ∷ ns) e = ground (arith, checked_names-box_of c d ns e)

-- Not the element of the overview, if there is one.
abbrev pub IsOther : Option String → String → Type 0
IsOther none selector = Unit
IsOther (some o) selector = str_eq o selector ≡ false

module _ (b : Browser) (infos : Infos) (d : GraphData) where
  create_graph-frame :
      (selector : String) (page : Page)
      → str_eq infos.flot selector ≡ false
      → IsOther infos.overview selector
      → is_graph selector (create_graph infos d page) ≡ is_graph selector page
  unfolding create_graph
  create_graph-frame selector page flot overview = elim (Option-cases infos.overview) [
    | inl alone ↦ rw alone (rw flot refl)
    | inr (o, e) ↦
        let other = subst (λ x. IsOther x selector) e overview in rw e (rw other (rw flot refl))
  ]

  create_graph-boxes : (page : Page) → (create_graph infos d page).boxes ≡ page.boxes
  unfolding create_graph
  create_graph-boxes page = elim (Option-cases infos.overview) [
    | inl alone ↦ rw alone refl
    | inr (o, e) ↦ rw e refl
  ]

  draw-frame :
      (source selector : String) (page : Page)
      → str_eq infos.flot selector ≡ false
      → IsOther infos.overview selector
      → is_graph selector (draw b source infos d page) ≡ is_graph selector page
  unfolding draw create_legend
  draw-frame source selector page flot overview = elim (Bool-cases (is_graph infos.flot page)) [
    | inl again ↦ rw again (create_graph-frame selector page flot overview)
    | inr first ↦ elim (Option-cases infos.overview) [
      | inl alone ↦
          ground (arith, create_graph-frame selector (create_legend b infos d page) flot overview)
      | inr (o, e) ↦
          ground (arith, create_graph-frame selector (create_legend b infos d page) flot overview)
    ]
  ]

  create_legend-frame :
      (choices : String) (page : Page)
      → str_eq infos.choices choices ≡ false
      → checked_names choices (create_legend b infos d page).boxes
        ≡ checked_names choices page.boxes
  unfolding create_legend
  create_legend-frame choices page other =
      checked_names-append choices page.boxes
        (map (box_of infos.choices) (legend_keys b d.result.series))
      ∙ ap (λ ns. checked_names choices page.boxes ++ ns)
          (checked_names-box_of choices infos.choices (legend_keys b d.result.series) other)
      ∙ append-nil (checked_names choices page.boxes)

  draw-boxes :
      (source choices : String) (page : Page)
      → str_eq infos.choices choices ≡ false
      → checked_names choices (draw b source infos d page).boxes ≡ checked_names choices page.boxes
  unfolding draw
  draw-boxes source choices page other = elim (Bool-cases (is_graph infos.flot page)) [
    | inl again ↦ rw again (ap (checked_names choices) (create_graph-boxes page))
    | inr first ↦ elim (Option-cases infos.overview) [
      | inl alone ↦ rw first (rw alone (create_legend-frame choices page other))
      | inr (o, e) ↦ rw first (rw e (create_legend-frame choices page other))
    ]
  ]

module _ (b : Browser) (f : Filters) (r : Refresh) (fix : Bool) (w : Report) where
  -- A refresh and what is not its own: the data of another graph, an element, and a list of choices.
  pub refresh-frame :
      (other : Graph) (selector choices : String)
      → other ≢ r.infos.graph
      → str_eq r.infos.flot selector ≡ false
      → IsOther r.infos.overview selector
      → str_eq r.infos.choices choices ≡ false
      → let w' = refresh b f r fix w in
        (w'.graphs other ≡ w.graphs other)
        × (is_graph selector w'.page ≡ is_graph selector w.page)
        × (checked_names choices w'.page.boxes ≡ checked_names choices w.page.boxes)
  unfolding refresh
  refresh-frame other selector choices ne flot overview boxes =
      elim (Option-cases (empty_message r.body (prepared b f r w).result.series)) [
        | inl drawn ↦
            let d = fixed fix r (prepared b f r w) in
            rw drawn (
              if_neg (Graph-discrete other r.infos.graph) ne d (w.graphs other),
              draw-frame b r.infos d r.source selector w.page flot overview,
              draw-boxes b r.infos d r.source choices w.page boxes,
            )
        | inr (body, e) ↦ rw e (
          if_neg (Graph-discrete other r.infos.graph) ne (prepared b f r w) (w.graphs other),
          refl,
          refl,
        )
      ]
