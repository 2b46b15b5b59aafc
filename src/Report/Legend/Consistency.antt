-- ===== src/Report/Legend/Consistency.antt =====
-- Whether a legend shows what its graph draws (dashboard-commons.js and graph.js, under
-- tools/jmeter/results/*-report/content/js).
use Prim.Native.String.{String}
use text.Mathlib.Text.{◌==◌ as str_eq}
use high_performance_e_comme.Common.{◌≡◌, not}
use high_performance_e_comme.Report.Legend.{Entry}

-- The label is grey and the colour box dimmed exactly for a series that is not drawn.
abbrev pub IsConsistent : Entry → Type 0
IsConsistent e =
    (e.disabled ≡ not e.checked) × (str_eq e.color "rgb(129, 129, 129)" ≡ not e.checked)
