-- ===== src/Report/Legend.antt =====
-- The legend of a graph and the clicks on it (createLegend in dashboard-commons.js and toggleAll in
-- graph.js, under tools/jmeter/results/*-report/content/js).
pub mod Consistency
use Prim.Native.String.{String}
use text.Mathlib.Text.{◌==◌ as str_eq}
use high_performance_e_comme.Common.{
  Bool, true, false, not, List, [], ◌∷◌, if◌then◌else◌, map, ℕ, zero, suc, ◌==◌,
}

-- One `<li>`: the colour of its label, as a script reads it; whether its colour box has the class
-- "legend-disabled"; and whether its hidden box is checked.
pub record Entry : Type 0 where
  pub color : String
  pub disabled : Bool
  pub checked : Bool

-- What a browser reads back of a colour that a script has set.
abbrev pub Computed : Type 0
Computed = String → String

-- A new `<li>`: no colour is set.
abbrev pub new_entry : Entry
new_entry = record { color = ""; disabled = false; checked = true }

-- A click on a label runs its handler, and clicks the box that the label is for.
pub click_label : Computed → Entry → Entry
click_label computed e = record {
  color = if str_eq e.color "rgb(129, 129, 129)" then computed "black" else computed "#818181";
  disabled = not e.disabled;
  checked = not e.checked;
}

-- `toggleAll(id, checked)`, for one `<li>` of the container.
pub toggle_entry : Computed → Bool → Entry → Entry
toggle_entry computed checked e = record {
  color = if checked then computed "black" else computed "#818181";
  disabled = not checked;
  checked = checked;
}

-- A click on the label of an entry, or on "Hide all samples" (`false`) or "Show all samples".
pub data Click : Type 0 where
  clicks_label : ℕ → Click
  clicks_all : Bool → Click

pub click_nth : Computed → ℕ → List Entry → List Entry
unfolding click_label
click_nth computed i [] = []
click_nth computed zero (e ∷ es) = click_label computed e ∷ es
click_nth computed (suc i) (e ∷ es) = e ∷ click_nth computed i es

pub click : Computed → Click → List Entry → List Entry
unfolding click_nth toggle_entry
click computed (clicks_label i) es = click_nth computed i es
click computed (clicks_all checked) es = map (toggle_entry computed checked) es

pub click_every : Computed → List Click → List Entry → List Entry
unfolding click
click_every computed [] es = es
click_every computed (c ∷ cs) es = click_every computed cs (click computed c es)

-- The entries of a new legend.
pub new_legend : List String → List Entry
new_legend [] = []
new_legend (key ∷ keys) = new_entry ∷ new_legend keys
