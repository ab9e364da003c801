-- ===== src/Frontend/Dialogs/Tests.antt =====
-- A viewer who joins a group before its only user has sent a point.
use go_hauk.Prelude.{
  Text, codes, text_eq, lookup, insert, ◌+◌, ◌≡◌, refl, true, false, none, some, [], ◌∷◌,
}
use go_hauk.Frontend.Number.{whole}
use go_hauk.Frontend.Locate.{nobody}
use go_hauk.Frontend.Trail.{Share}
use go_hauk.Frontend.Staleness.{mark_shares}
use go_hauk.Frontend.Shares.{follow, navigate}
use go_hauk.Frontend.Speed.{update_speed, local_speed}
use go_hauk.Frontend.Trail.{receive, prune}
use go_hauk.Frontend.Update.{
  Config, Page, Points, group, update_users, update_user, update_share, list_share, turn_share,
  name_share, center, apply,
}
use go_hauk.Frontend.Dialogs.{
  Screen, on_radar, on_follow, on_navigate, open_details, close_details, entries,
}
use go_hauk.Frontend.Dialogs.Details.{
  Reach, closed, answer, radar, with_page, has_no_points, on_follow_throws,
}

abbrev config : Config whole
config = record {
  speed = record { multiplier = 1; delta_time = 20 };
  stale = record { offline_timeout = 30; units = λ u. codes "{{time}}" };
  max_points = 2;
  default_zoom = 14;
  fit = elim [ [] ↦ none | p ∷ ps ↦ some 18 ];
  random_id = λ n. (97 + n) ∷ [];
}

abbrev page : Page whole
page = record {
  shares = [];
  has_first = false;
  has_initiated = false;
  view = record { following = nobody; pan = none; zoom = 0 };
  map_shown = false;
  ids = 0;
}

-- The answer names the user, and has no points of hers.
abbrev waiting : Points whole
waiting = group ((codes "ann", some []) ∷ [])

abbrev start : Screen whole
start = record {
  dialogs = record {
    message_shown = false;
    title = [];
    body = [];
    list_shown = false;
    details_shown = false;
    header = [];
    user = none;
  };
  shares = [];
  view = page.view;
  opened = none;
}

abbrev joined : Screen whole
joined = with_page whole config start (apply whole config 40 waiting page).0

-- The control of the list clicks the only entry, which is hidden.
abbrev asked : Screen whole
asked = record joined { dialogs = on_radar (entries whole joined.shares) joined.dialogs }

asked-Reach : Reach whole config asked
asked-Reach = radar (answer 40 waiting page (closed start refl refl refl) refl refl)

asked_details : asked.dialogs.details_shown ≡ true
unfolding on_radar open_details apply update_users update_user update_share update_speed list_share
    turn_share name_share receive prune mark_shares center lookup insert text_eq local_speed
asked_details = refl

-- "follow" throws, and leaves the details open.
follow_throws :
    ((on_follow whole asked).1 ≡ true)
    × ((on_follow whole asked).0.dialogs.details_shown ≡ true)
    × ((on_navigate whole asked).0.dialogs.details_shown ≡ false)
unfolding on_radar open_details on_follow on_navigate follow navigate close_details apply
    update_users update_user update_share update_speed list_share turn_share name_share receive
    prune mark_shares center lookup insert text_eq local_speed
follow_throws = (refl, refl, refl)

on_follow_throws_example :
    (u : Text) × (e : Share whole) × (asked.dialogs.user ≡ some u)
    × (lookup u asked.shares ≡ some e)
    × ((on_follow whole asked).1 ≡ has_no_points whole e.points)
    × ((on_navigate whole asked).1 ≡ false)
on_follow_throws_example = on_follow_throws whole config asked asked-Reach asked_details
