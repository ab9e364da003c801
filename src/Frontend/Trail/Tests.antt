-- ===== src/Frontend/Trail/Tests.antt =====
-- Rows that arrive for a user, and the theorems on trails at concrete inputs.
use go_hauk.Prelude.{
  length, drop, last?, codes, ℕ, ◌-◌, ◌≤◌, ◌≡◌, refl, none, some, List, [], ◌∷◌, map, arith,
}
use go_hauk.Frontend.Number.{whole}
use go_hauk.Frontend.Trail.{Row, Point, Share, new_share, receive, prune}
use go_hauk.Frontend.Trail.Order.{IsTrail, IsCurrent, receive-IsCurrent, new_share-IsTrail}
use go_hauk.Frontend.Trail.Pruned.{prune-IsTrail}

abbrev row : ℕ → ℕ → Row whole
row place time = some place ∷ some place ∷ some time ∷ none ∷ some 5 ∷ none ∷ []

abbrev rows : List (Row whole)
rows = row 1 10 ∷ row 2 20 ∷ row 3 20 ∷ row 4 40 ∷ []

abbrev start : Share whole
start = new_share whole (codes "abc")

-- The third row is not newer than the second.
times : map (λ (p : Point whole). p.time) (receive whole rows start).0.points ≡ 10 ∷ 20 ∷ 40 ∷ []
unfolding receive
times = refl

lines : (receive whole rows start).0.drawn ≡ 0 ∷ 1 ∷ []
unfolding receive
lines = refl

receive-IsCurrent_example : IsCurrent whole (receive whole rows start)
receive-IsCurrent_example =
    receive-IsCurrent whole rows start (new_share-IsTrail whole (codes "abc"))

abbrev received : Share whole
received = (receive whole rows start).0

prune-IsTrail_example :
    IsTrail whole (prune whole 2 received)
    × (length (prune whole 2 received).points ≤ 2)
    × (last? (prune whole 2 received).points ≡ last? received.points)
    × (drop (length received.points - 2) received.points ≡ (prune whole 2 received).points)
prune-IsTrail_example = prune-IsTrail whole 2 received (omega arith) receive-IsCurrent_example.trail

abbrev later_rows : List (Row whole)
later_rows = row 3 20 ∷ row 4 40 ∷ row 5 50 ∷ []

abbrev last_point : Point whole
last_point = record {
  place = record { lat = 4; lon = 4 };
  line = some (record {
    line_id = 1;
    from = record { lat = 2; lon = 2 };
    to = record { lat = 4; lon = 4 };
  });
  time = 40;
  spd = none;
  acc = some 5;
}
