-- ===== src/Frontend/Update/Tests.antt =====
-- An answer for one user, and the theorem at it.
use go_hauk.Prelude.{
  codes, text_eq, lookup, insert, ℕ, ◌+◌, ◌≡◌, refl, true, false, none, some, [], ◌∷◌, arith,
}
use go_hauk.Frontend.Number.{whole}
use go_hauk.Frontend.Locate.{nobody, only_user}
use go_hauk.Frontend.Trail.{Row, receive, prune}
use go_hauk.Frontend.Trail.Sound.{AllSound}
use go_hauk.Frontend.Staleness.{mark_shares}
use go_hauk.Frontend.Shares.{auto_center}
use go_hauk.Frontend.Speed.{update_speed, local_speed, window}
use go_hauk.Frontend.Geometry.{velocity, angle}
use go_hauk.Frontend.Update.{
  Config, Page, Points, alone, group, update_users, update_user, update_share, list_share,
  turn_share, name_share, center, apply,
}
use go_hauk.Frontend.Update.Invariant.{apply-AllSound}

abbrev config : Config whole
config = record {
  speed = record { multiplier = 1; delta_time = 20 };
  stale = record { offline_timeout = 30; units = λ u. codes "{{time}}" };
  max_points = 2;
  default_zoom = 14;
  fit = elim [ [] ↦ none | p ∷ ps ↦ some 18 ];
  random_id = λ n. (97 + n) ∷ [];
}

abbrev page : Page whole
page = record {
  shares = [];
  has_first = false;
  has_initiated = false;
  view = record { following = nobody; pan = none; zoom = 0 };
  map_shown = false;
  ids = 0;
}

abbrev row : ℕ → Row whole
row t = some t ∷ some t ∷ some t ∷ none ∷ none ∷ none ∷ []

abbrev points : Points whole
points = alone (row 10 ∷ row 20 ∷ row 30 ∷ [])

centered_and_followed :
    (apply whole config 40 points page).0.view
    ≡ record { following = only_user; pan = none; zoom = 14 }
unfolding apply update_users update_user update_share update_speed list_share turn_share name_share
    receive prune mark_shares center auto_center lookup insert text_eq local_speed window velocity
    angle
centered_and_followed = refl

apply-AllSound_example : AllSound whole 2 (apply whole config 40 points page).0.shares
apply-AllSound_example = apply-AllSound whole config (omega arith) 40 points page tt

-- A poll of a group in which one of two users has sent nothing new.
abbrev poll : Points whole
poll = group ((codes "a", some (row 40 ∷ [])) ∷ (codes "b", none) ∷ [])

abbrev centered_page : Page whole
centered_page = record page { has_first = true; has_initiated = true }
