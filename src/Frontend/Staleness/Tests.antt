-- ===== src/Frontend/Staleness/Tests.antt =====
-- Ages and marks, and the theorems at concrete inputs.
use go_hauk.Prelude.{Text, arith, codes, ◌≡◌, refl, none, some, [], ◌∷◌}
use go_hauk.Frontend.Number.{whole}
use go_hauk.Frontend.Trail.{live, Point, Face, Share, new_share}
use go_hauk.Frontend.Staleness.{
  AgeUnit, seconds, minutes, hours, days, age_text, StaleConfig, mark_share,
}
use go_hauk.Frontend.Trail.Sound.{IsSound}
use go_hauk.Frontend.Staleness.Marks.{still, provider, arrow_class, IsMarked, mark_share-IsMarked}

abbrev units : AgeUnit → Text
units seconds = codes "{{time}} seconds ago"
units minutes = codes "{{time}} minutes ago"
units hours = codes "{{time}} hours ago"
units days = codes "{{time}} days ago"

two_hours : age_text units 7260 ≡ codes "2 hours ago"
unfolding age_text
two_hours = refl

abbrev config : StaleConfig whole
config = record { offline_timeout = 30; units = units }

abbrev face : Face whole
face = record {
  arrow = arrow_class still (provider live);
  rotation = none;
  label = codes "live";
  speed = codes "0.0";
  last_seen = [];
  nickname = [];
}

abbrev point : Point whole
point = record {
  place = record { lat = 1; lon = 1 };
  line = none;
  time = 100;
  spd = none;
  acc = none;
}

abbrev share : Share whole
share = record (new_share whole (codes "x")) {
  marker = some point.place;
  face = some face;
  points = point ∷ [];
}

mark_share-IsMarked_example :
    (u : Share whole) × (mark_share whole config 200 share ≡ some u)
    × IsMarked whole config 200 still (provider live) point share u
mark_share-IsMarked_example =
    mark_share-IsMarked whole config 200 share face point still (provider live) refl refl refl

share-IsSound : IsSound whole 1 share
share-IsSound = record {
  trail = record { connected = tt; marker = refl; circle = tt; face = tt; drawn = refl };
  short = omega arith;
}
