-- ===== src/Report/Page/Choices.antt =====
-- The series that a graph draws, by the boxes of its choices (`prepareData` of dashboard-commons.js
-- under tools/jmeter/results/*-report/content/js).
use Prim.Native.String.{String}
use text.Mathlib.Text.{◌==◌ as str_eq}
use text.Mathlib.TextEquality.{eq_iff}
use mathlib.Core.Path.{subst}
use mathlib.Core.List.{Memᴰ}
use high_performance_e_comme.Common.{
  ◌≡◌, ◌↔◌, refl, sym, ◌∙◌, ap, inl, inr, true, some, List, [], ◌∷◌, map, All, Bool-cases,
  Option-cases,
}
use high_performance_e_comme.Report.Series.{Series, find_series, prepare_data}
use high_performance_e_comme.Report.Series.Preparation.{find_series-found}
use high_performance_e_comme.Report.Page.{Box, checked_names}

abbrev pub labels : List Series → List String
labels = map (λ s. s.label)

-- A checked box of the container, with a name.
abbrev pub IsChecked : String → String → Box → Type 0
IsChecked container name b = (b.container ≡ container) × (b.checked ≡ true) × (b.name ≡ name)

label-Mem : (s : Series) (ss : List Series) → Memᴰ s ss → Memᴰ s.label (labels ss)
label-Mem s [] m = elim m [ ]
label-Mem s (t ∷ ts) (Memᴰ.head p) = Memᴰ.head (ap (λ x. x.label) p)
label-Mem s (t ∷ ts) (Memᴰ.tail m) = Memᴰ.tail (label-Mem s ts m)

module _ (container name : String) where
  split_head :
      (b : Box) (bs : List Box) (names : List String)
      → (Memᴰ name names → (c : Box) × Memᴰ c bs × IsChecked container name c)
      → b.container ≡ container
      → b.checked ≡ true
      → Memᴰ name (b.name ∷ names)
      → (c : Box) × Memᴰ c (b ∷ bs) × IsChecked container name c
  split_head b bs names rest here on (Memᴰ.head p) = (b, Memᴰ.head refl, (here, on, sym p))
  split_head b bs names rest here on (Memᴰ.tail m) = let (c, n, h) = rest m in (c, Memᴰ.tail n, h)

  checked_names-box :
      (bs : List Box)
      → Memᴰ name (checked_names container bs)
      → (b : Box) × Memᴰ b bs × IsChecked container name b
  checked_names-box [] m = elim m [ ]
  checked_names-box (b ∷ bs) m =
      let rest = checked_names-box bs in
      elim (Bool-cases (str_eq b.container container)) [
        | inr other ↦ let (c, n, h) = rest (rw other at m) in (c, Memᴰ.tail n, h)
        | inl here ↦ elim (Bool-cases b.checked) [
          | inr off ↦ let (c, n, h) = rest (rw (here, off) at m) in (c, Memᴰ.tail n, h)
          | inl on ↦
              split_head b bs (checked_names container bs) rest
                ((eq_iff b.container container).0 here) on (rw (here, on) at m)
        ]
      ]

  box-checked_names :
      (b : Box) (bs : List Box)
      → Memᴰ b bs
      → IsChecked container name b
      → Memᴰ name (checked_names container bs)
  box-checked_names b [] m h = elim m [ ]
  box-checked_names b (c ∷ bs) (Memᴰ.head p) (here, on, named) =
      let at_c : (str_eq c.container container ≡ true) =
        (eq_iff c.container container).1 (ap (λ x. x.container) (sym p) ∙ here) in
      let on_c : (c.checked ≡ true) = ap (λ x. x.checked) (sym p) ∙ on in
      rw (at_c, on_c) (Memᴰ.head (sym named ∙ ap (λ x. x.name) p))
  box-checked_names b (c ∷ bs) (Memᴰ.tail m) h =
      let rest = box-checked_names b bs m h in
      elim (Bool-cases (str_eq c.container container)) [
        | inr other ↦ rw other rest
        | inl here ↦ elim (Bool-cases c.checked) [
          | inr off ↦ rw (here, off) rest
          | inl on ↦ rw (here, on) (Memᴰ.tail rest)
        ]
      ]

found :
    (key : String) (ss : List Series)
    → Memᴰ key (labels ss)
    → (s : Series) × (find_series key ss ≡ some s)
unfolding find_series
found key [] m = elim m [ ]
found key (s ∷ ss) (Memᴰ.head p) = (s, rw ((eq_iff s.label key).1 (sym p)) refl)
found key (s ∷ ss) (Memᴰ.tail m) = elim (Bool-cases (str_eq s.label key)) [
  | inl same ↦ (s, rw same refl)
  | inr other ↦ let (t, e) = found key ss m in (t, rw other e)
]

module _ (series : List Series) where
  split_keys :
      (name key : String) (keys : List String) (s : Series)
      → find_series key series ≡ some s
      → (Memᴰ name (labels (prepare_data series keys)) → Memᴰ name (labels series) × Memᴰ name keys)
      → Memᴰ name (s.label ∷ labels (prepare_data series keys))
      → Memᴰ name (labels series) × Memᴰ name (key ∷ keys)
  split_keys name key keys s e rest (Memᴰ.head p) =
      let (label, m) = find_series-found key series s e in
      (subst (λ n. Memᴰ n (labels series)) (sym p) (label-Mem s series m), Memᴰ.head (p ∙ label))
  split_keys name key keys s e rest (Memᴰ.tail m) = let (x, y) = rest m in (x, Memᴰ.tail y)

  drawn-key :
      (name : String) (keys : List String)
      → Memᴰ name (labels (prepare_data series keys))
      → Memᴰ name (labels series) × Memᴰ name keys
  unfolding prepare_data
  drawn-key name [] m = elim m [ ]
  drawn-key name (key ∷ keys) m =
      let rest = drawn-key name keys in
      elim (Option-cases (find_series key series)) [
        | inl missing ↦ let (x, y) = rest (rw (missing, prepare_data) at m) in (x, Memᴰ.tail y)
        | inr (s, e) ↦ split_keys name key keys s e rest (rw (e, prepare_data) at m)
      ]

  key-drawn :
      (name : String) (keys : List String)
      → Memᴰ name (labels series)
      → Memᴰ name keys
      → Memᴰ name (labels (prepare_data series keys))
  unfolding prepare_data
  key-drawn name [] m k = elim k [ ]
  key-drawn name (key ∷ keys) m (Memᴰ.head p) =
      let (s, e) = found name series m in
      let (label, _) = find_series-found name series s e in
      let here : (find_series key series ≡ some s) =
        subst (λ k. find_series k series ≡ some s) p e in
      rw (here, prepare_data) (Memᴰ.head (sym label))
  key-drawn name (key ∷ keys) m (Memᴰ.tail k) =
      let rest = key-drawn name keys m k in
      elim (Option-cases (find_series key series)) [
        | inl missing ↦ rw (missing, prepare_data) rest
        | inr (s, e) ↦ rw (e, prepare_data) (Memᴰ.tail rest)
      ]

  drawn-series :
      (keys : List String) → All (λ (s : Series). Memᴰ s series) (prepare_data series keys)
  unfolding prepare_data
  drawn-series [] = tt
  drawn-series (key ∷ keys) = elim (Option-cases (find_series key series)) [
    | inl missing ↦ rw (missing, prepare_data) (drawn-series keys)
    | inr (s, e) ↦ rw (e, prepare_data) ((find_series-found key series s e).1, drawn-series keys)
  ]

  -- Everything drawn is a series of the graph; and a name is the label of a series that is drawn
  -- exactly if it is the label of a series of the graph and the name of a box, in the container of
  -- the graph's choices, that is checked.
  pub prepare_data-shows :
      (container : String) (boxes : List Box) (name : String)
      → All (λ (s : Series). Memᴰ s series) (prepare_data series (checked_names container boxes))
        × (Memᴰ name (labels (prepare_data series (checked_names container boxes)))
            ↔ (Memᴰ name (labels series) × ((b : Box) × Memᴰ b boxes × IsChecked container name b)))
  prepare_data-shows container boxes name = (
    drawn-series (checked_names container boxes),
    (
      (λ m.
          let (x, k) = drawn-key name (checked_names container boxes) m in
          (x, checked_names-box container name boxes k)),
      (λ h.
          key-drawn name (checked_names container boxes) h.0
            (box-checked_names container name h.1.0 boxes h.1.1 h.1.2)),
    ),
  )
