-- ===== src/Frontend/Shares/Tests.antt =====
-- Two users, and the theorems on all users at concrete inputs.
use go_hauk.Prelude.{Text, codes, text_eq, Dict, lookup, ℕ, ◌≡◌, refl, none, some, List, [], ◌∷◌}
use go_hauk.Frontend.Number.{whole}
use go_hauk.Frontend.Trail.{Row, Point, Share, new_share, receive}
use go_hauk.Frontend.Trail.Incremental.{newer, Agree}
use go_hauk.Frontend.Trail.Whole.{whole-IsOrder, whole-IsComparable}
use go_hauk.Frontend.Shares.{oldest_point_time}
use go_hauk.Frontend.Shares.Oldest.{receive-oldest_point_time}

abbrev point : ℕ → Point whole
point t = record {
  place = record { lat = 1; lon = 1 };
  line = none;
  time = t;
  spd = none;
  acc = none;
}

abbrev with_points : Text → List (Point whole) → Share whole
with_points id ps = record (new_share whole id) { points = ps }

abbrev shares : Dict (Share whole)
shares =
    (codes "ann", with_points (codes "x") (point 10 ∷ point 30 ∷ []))
    ∷ (codes "bob", with_points (codes "y") (point 20 ∷ []))
    ∷ (codes "eve", with_points (codes "z") [])
    ∷ []

oldest : oldest_point_time whole shares ≡ 20
unfolding oldest_point_time
oldest = refl

abbrev rows : List (Row whole)
rows =
    (some 1 ∷ some 1 ∷ some 15 ∷ none ∷ none ∷ none ∷ [])
    ∷ (some 2 ∷ some 2 ∷ some 40 ∷ none ∷ none ∷ none ∷ [])
    ∷ []

receive-oldest_point_time_example :
    Agree whole
      (receive whole
        (newer whole (oldest_point_time whole shares) rows)
        (with_points (codes "x") (point 10 ∷ point 30 ∷ [])))
      (receive whole rows (with_points (codes "x") (point 10 ∷ point 30 ∷ [])))
unfolding lookup text_eq
receive-oldest_point_time_example =
    receive-oldest_point_time whole whole-IsOrder shares (codes "ann")
      (with_points (codes "x") (point 10 ∷ point 30 ∷ [])) (point 30) rows
      (whole-IsComparable (oldest_point_time whole shares)) refl refl
