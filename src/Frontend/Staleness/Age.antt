-- ===== src/Frontend/Staleness/Age.antt =====
-- The number and unit that stand for an age.
use go_hauk.Prelude.{ℕ, ◌+◌, ◌*◌, ◌≤◌, ◌<◌, arith}
use go_hauk.Frontend.Staleness.{AgeUnit, seconds, minutes, hours, days, age_unit}

abbrev pub unit_seconds : AgeUnit → ℕ
unit_seconds seconds = 1
unit_seconds minutes = 60
unit_seconds hours = 3600
unit_seconds days = 86400

-- How many of a unit make the next one, where there is a next one.
abbrev pub Fits : AgeUnit → ℕ → Type 0
Fits seconds n = n < 60
Fits minutes n = (1 ≤ n) × (n < 60)
Fits hours n = (1 ≤ n) × (n < 24)
Fits days n = 1 ≤ n

-- The number and unit shown for an age are the age in whole units, rounded down, in the largest unit
-- of which there is one.
pub age_unit_bounds :
    (t : ℕ)
    → ((age_unit t).0 * unit_seconds (age_unit t).1 ≤ t)
      × (t < (age_unit t).0 * unit_seconds (age_unit t).1 + unit_seconds (age_unit t).1)
      × Fits (age_unit t).1 (age_unit t).0
unfolding age_unit
age_unit_bounds t = ground arith
