-- ===== src/Frontend/Speed/Tests.antt =====
-- Speeds of short trails, and the theorem at a concrete one.
use mathlib.Core.List.{reverse}
use go_hauk.Prelude.{length, ℕ, ◌≡◌, refl, none, List, [], ◌∷◌}
use go_hauk.Frontend.Number.{whole}
use go_hauk.Frontend.Trail.{Point}
use go_hauk.Frontend.Speed.{window}
use go_hauk.Frontend.Speed.Window.{segments, rest, spend, window-spend}

abbrev at : ℕ → Point whole
at t = record { place = record { lat = t; lon = 0 }; line = none; time = t; spd = none; acc = none }

-- The segments from 3 to 4 and from 2 to 3 fit, the one before is the first and is not counted.
three_segments : (window whole 10 4 (at 1 ∷ at 2 ∷ at 3 ∷ at 4 ∷ []) (0, 0)).0 ≡ 2
unfolding window
three_segments = refl

two_points : window whole 10 2 (at 1 ∷ at 2 ∷ []) (0, 0) ≡ (0, 0)
unfolding window
two_points = refl

abbrev trail : List (Point whole)
trail = at 1 ∷ at 2 ∷ at 3 ∷ at 4 ∷ []

window-spend_example :
    window whole 1 (length trail) trail (0, 0)
    ≡ spend whole 1 (reverse (segments whole (rest whole trail))) (0, 0)
window-spend_example = window-spend whole 1 trail (0, 0)
