-- ===== src/Report/Format.antt =====
-- Durations, labels and time formats of the load test's report:
-- tools/jmeter/results/*-report/content/js/dashboard-commons.js. A text is the list of the pieces that
-- the code concatenates, so that no printing of numerals is modelled. Durations are whole
-- milliseconds.
pub mod Durations
use Prim.Native.String.{String}
use text.Mathlib.Text.{◌==◌ as str_eq}
use high_performance_e_comme.Common.{
  ℕ, ◌+◌, ◌*◌, ◌/◌, ◌%◌, Bool, true, false, List, [], ◌∷◌, ◌++◌, ltb, leb, if◌then◌else◌,
}

pub data Piece : Type 0 where
  num : ℕ → Piece
  lit : String → Piece

abbrev pub Text : Type 0
Text = List Piece

abbrev pub day_ms : ℕ
day_ms = 86400000

abbrev pub hour_ms : ℕ
hour_ms = 3600000

abbrev pub minute_ms : ℕ
minute_ms = 60000

-- `formatUnit`
abbrev pub format_unit : ℕ → String → Bool → Text
format_unit value unit spaced =
    if spaced then num value ∷ lit " " ∷ lit unit ∷ [] else num value ∷ lit unit ∷ []

-- The numbers that `formatDuration` computes, in its order: each `%=` leaves what the next line
-- divides. The day is 86400000 ms in the division, and 8640000 in the remainder.
pub record DurationParts : Type 0 where
  pub days : ℕ
  pub hours : ℕ
  pub minutes : ℕ
  pub seconds : ℕ
  pub millis : ℕ

pub duration_parts : ℕ → DurationParts
duration_parts duration =
    let d1 = duration % 8640000 in
    let d2 = d1 % 3600000 in
    let d3 = d2 % 60000 in
    record {
      days = duration / 86400000;
      hours = d1 / 3600000;
      minutes = d2 / 60000;
      seconds = d3 / 1000;
      millis = d3 % 1000;
    }

-- `if (value > 0) formatArray.push(...)`
abbrev push_unit : ℕ → String → Bool → List Text → List Text
push_unit value unit spaced rest =
    if ltb 0 value then format_unit value unit spaced ∷ rest else rest

abbrev pub join : List Text → Text
join [] = []
join (t ∷ []) = t
join (t ∷ u ∷ ts) = t ++ lit " " ∷ join (u ∷ ts)

-- `formatDuration` of a number.
pub format_duration : ℕ → Bool → Text
unfolding duration_parts
format_duration duration spaced =
    let p = duration_parts duration in
    join (
      push_unit p.days " day(s)" spaced (
        push_unit p.hours " hour(s)" spaced (
          push_unit p.minutes " min" spaced
            (push_unit p.seconds " sec" spaced (push_unit p.millis " ms" spaced [])))))

-- `getElapsedTimeLabel`
pub elapsed_time_label : ℕ → Text
elapsed_time_label granularity =
    lit "Elapsed Time (granularity: " ∷ format_duration granularity false ++ lit ")" ∷ []

-- `getConnectTimeLabel`
pub connect_time_label : ℕ → Text
connect_time_label granularity =
    lit "Connect Time (granularity: " ∷ format_duration granularity false ++ lit ")" ∷ []

-- `getTimeFormat`
pub time_format : ℕ → String
time_format granularity =
    if leb day_ms granularity
    then "%y/%m/%d"
    else if leb hour_ms granularity
    then "%m/%d %H"
    else if leb minute_ms granularity
    then "%d %H:%M"
    else "%H:%M:%S"
