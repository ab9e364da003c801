-- ===== src/Frontend/Shares.antt =====
-- `shares` of frontend/main.js as a whole: the time that an incremental fetch starts from, following a
-- user, and showing all users.
pub mod Oldest
mod Tests
use go_hauk.Prelude.{
  ltb, if◌then◌else◌, last?, Text, codes, Dict, lookup, ℕ, Bool, true, false, Option, none, some,
  List, [], ◌∷◌, ◌++◌,
}
use go_hauk.Frontend.Number.{Float}
use go_hauk.Frontend.Geometry.{Place}
use go_hauk.Frontend.Locate.{Following, nobody, only_user, user}
use go_hauk.Frontend.Trail.{Point, Share}

module _ (F : Float) where
  open F use {Num, of_ℕ, lt, max_value}

  -- The body of the loop of `getOldestPointTime`, over `oldestTime` and `foundTime`.
  abbrev older : Option (Point F) → Num × Bool → Num × Bool
  older none acc = acc
  older (some p) (oldest, found) = (if lt p.time oldest then p.time else oldest, true)

  unfoldable pub scan_oldest : Dict (Share F) → Num × Bool → Num × Bool
  scan_oldest [] acc = acc
  scan_oldest ((u, s) ∷ d) acc = scan_oldest d (older (last? s.points) acc)

  -- `getOldestPointTime`
  unfoldable pub oldest_point_time : Dict (Share F) → Num
  unfolding scan_oldest
  oldest_point_time shares =
      let r = scan_oldest shares (max_value, false) in if r.1 then r.0 else of_ℕ 0

  -- `following`, the place of the last `panTo`, and the zoom of the map.
  pub record View : Type 0 where
    pub following : Following
    pub pan : Option (Place F)
    pub zoom : ℕ

  -- `map.panTo` of a point; `none` is the read of `lat` of `undefined`, which throws.
  abbrev pub pan_to : Option (Point F) → View → View × Bool
  pan_to none v = (v, true)
  pan_to (some p) v = (record v { pan = some p.place }, false)

  abbrev pub follow_share : Option (Share F) → View → View × Bool
  follow_share none v = (v, true)
  follow_share (some s) v = pan_to (last? s.points) (record v { following = user s.id })

  -- `follow`; the flag says whether it threw.
  unfoldable pub follow : Text → Dict (Share F) → View → View × Bool
  follow name shares v = follow_share (lookup name shares) v

  abbrev marker_list : Option (Place F) → List (Place F)
  marker_list none = []
  marker_list (some m) = m ∷ []

  -- The markers that `autoCenter` collects.
  unfoldable pub markers : Dict (Share F) → List (Place F)
  markers [] = []
  markers ((u, s) ∷ d) = marker_list s.marker ++ markers d

  -- `autoCenter`: `fit` is Leaflet's `fitBounds`, which gives the new zoom, and throws (`none`) if there
  -- is no marker.
  abbrev centered : ℕ → Option ℕ → View → View × Bool
  centered default_zoom none v = (v, true)
  centered default_zoom (some z) v =
      (record v { zoom = if ltb default_zoom z then default_zoom else z }, false)

  unfoldable pub auto_center : (List (Place F) → Option ℕ) → ℕ → Dict (Share F) → View → View × Bool
  unfolding markers
  auto_center fit default_zoom shares v = centered default_zoom (fit (markers shares)) v

  -- The address that the button "navigate" opens: `geo:` and the last place of the user.
  abbrev geo_uri : Option (Point F) → Option Text
  geo_uri none = none
  geo_uri (some p) =
      some (codes "geo:" ++ (F.text p.place.lat ++ (codes "," ++ F.text p.place.lon)))

  unfoldable pub navigate : Share F → Option Text
  navigate s = geo_uri (last? s.points)
