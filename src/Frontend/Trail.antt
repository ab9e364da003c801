-- ===== src/Frontend/Trail.antt =====
-- The trail of one user in frontend/main.js: an entry of `shares`, and the loop of `processUpdate` over
-- the rows that the server sent for it, with the pruning that follows. Colours, popups and class names
-- are what the script writes; Leaflet's layers are the places that it was given.
pub mod Order
pub mod Incremental
pub mod Pruned
pub mod Sound
pub mod Whole
mod Tests
use go_hauk.Prelude.{
  ltb, ◌==◌, if◌then◌else◌, length, take, drop, last?, Text, codes, ℕ, zero, suc, ◌-◌, Bool, true,
  false, Option, none, some, List, [], ◌∷◌, ◌++◌,
}
use go_hauk.Frontend.Number.{Float, number}
use go_hauk.Frontend.Geometry.{Place}

-- `state`: which provider the last row came from.
pub data State : Type 0 where
  live rough : State

abbrev pub state_name : State → Text
state_name live = codes "live"
state_name rough = codes "rough"

-- `STATE_LIVE_COLOR` and `STATE_ROUGH_COLOR`.
abbrev pub state_color : State → Text
state_color live = codes "#d80037"
state_color rough = codes "#ff9c00"

module _ (F : Float) where
  open F use {Num, of_ℕ, lt, eq}

  -- A row of `data.points`: latitude, longitude, time, provider, accuracy, speed.
  abbrev pub Row : Type 0
  Row = List (Option Num)

  -- `row[i]`; the server sends six columns, so that no column is missing.
  abbrev pub column : ℕ → Row → Option Num
  column i [] = none
  column zero (c ∷ r) = c
  column (suc i) (c ∷ r) = column i r

  -- A polyline, by the id that Leaflet gives it and its ends.
  pub record Line : Type 0 where
    pub line_id : ℕ
    pub from : Place F
    pub to : Place F

  pub record Point : Type 0 where
    pub place : Place F
    pub line : Option Line
    pub time : Num
    pub spd : Option Num
    pub acc : Option Num

  pub record Circle : Type 0 where
    pub center : Place F
    pub radius : Num
    pub color : Text

  -- The elements of the icon, which are on the page from when the marker is: the class and the
  -- rotation of `arrow-`, the class of `label-`, and the texts of `velocity-`, `last-seen-` and
  -- `nickname-`.
  pub record Face : Type 0 where
    pub arrow : Text
    pub rotation : Option Num
    pub label : Text
    pub speed : Text
    pub last_seen : Text
    pub nickname : Text

  -- An entry of `shares`; `listed` says whether its entry of the user list is displayed, `drawn` which
  -- lines are on the map, `next_line` the next line's id.
  pub record Share : Type 0 where
    pub id : Text
    pub marker : Option (Place F)
    pub face : Option Face
    pub circle : Option Circle
    pub points : List Point
    pub listed : Bool
    pub state : State
    pub drawn : List ℕ
    pub next_line : ℕ

  -- A new entry of `shares`.
  abbrev pub new_share : Text → Share
  new_share id = record {
    id = id;
    marker = none;
    face = none;
    circle = none;
    points = [];
    listed = false;
    state = live;
    drawn = [];
    next_line = 0;
  }

  -- The icon of a new marker.
  abbrev new_face : State → Face
  new_face s = record {
    arrow = codes "arrow still-" ++ state_name s;
    rotation = none;
    label = state_name s;
    speed = codes "0.0";
    last_seen = [];
    nickname = [];
  }

  -- A missing provider is `LOC_PROVIDER_FINE`, which is 0.
  abbrev pub state_of : Option Num → State
  state_of none = if eq (of_ℕ 0) (of_ℕ 0) then live else rough
  state_of (some prov) = if eq prov (of_ℕ 0) then live else rough

  -- Adds the marker, or moves it and draws a line from where it was; the line is handed on.
  abbrev place_marker : Place F → Option (Place F) → Share → Share × Option Line
  place_marker at none s = (record s { marker = some at; face = some (new_face s.state) }, none)
  place_marker at (some old) s = (
    record s { marker = some at; drawn = s.drawn ++ s.next_line ∷ []; next_line = suc s.next_line },
    some (record { line_id = s.next_line; from = old; to = at }),
  )

  -- The accuracy circle: drawn when an accuracy is known, and moved from then on.
  abbrev place_circle : Place F → Option Num → State → Option Circle → Option Circle
  place_circle at none s none = none
  place_circle at (some acc) s none =
      some (record { center = at; radius = acc; color = state_color s })
  place_circle at none s (some c) = some (record c { center = at })
  place_circle at (some acc) s (some c) = some (record c { center = at; radius = acc })

  -- The server sends no `null` for a coordinate; Leaflet would throw at one.
  abbrev row_place : Row → Place F
  row_place r = record { lat = number F (column 0 r); lon = number F (column 1 r) }

  abbrev pub row_time : Row → Num
  row_time r = number F (column 2 r)

  -- The point that a row becomes.
  abbrev new_point : Row → Option Line → Point
  new_point r line = record {
    place = row_place r;
    line = line;
    time = row_time r;
    spd = column 5 r;
    acc = column 4 r;
  }

  -- "Only add new location points if the point was not recorded before the last recorded point."
  abbrev pub is_new : Option Point → Row → Bool
  is_new none r = true
  is_new (some last) r = lt last.time (row_time r)

  abbrev push : Row → Share × Option Line → Share × Option Point
  push r (s, line) =
      let p = new_point r line in
      (
        record s {
          circle = place_circle (row_place r) (column 4 r) s.state s.circle;
          points = s.points ++ p ∷ [];
        },
        some p,
      )

  -- One round of the loop, over the entry and `lastPoint`.
  unfoldable pub add_row : Row → Share × Option Point → Share × Option Point
  add_row r (s, last) =
      let t = record s { state = state_of (column 3 r) } in
      if is_new last r then push r (place_marker (row_place r) t.marker t) else (t, last)

  unfoldable pub add_rows : List Row → Share × Option Point → Share × Option Point
  unfolding add_row
  add_rows [] sp = sp
  add_rows (r ∷ rs) sp = add_rows rs (add_row r sp)

  -- The whole loop: `lastPoint` starts as the last point of the entry.
  unfoldable pub receive : List Row → Share → Share × Option Point
  unfolding add_rows
  receive rows s = add_rows rows (s, last? s.points)

  -- `map.removeLayer(line)` for each removed point that has a line.
  abbrev remove_line : Option Line → List ℕ → List ℕ
  remove_line none ids = ids
  remove_line (some l) [] = []
  remove_line (some l) (i ∷ ids) = if i == l.line_id then ids else i ∷ remove_line (some l) ids

  abbrev remove_lines : List Point → List ℕ → List ℕ
  remove_lines [] ids = ids
  remove_lines (p ∷ ps) ids = remove_lines ps (remove_line p.line ids)

  -- "Prune the array of locations so it does not exceed our MAX_POINTS".
  unfoldable pub prune : ℕ → Share → Share
  prune max_points s =
      if ltb max_points (length s.points)
      then (let surplus = length s.points - max_points in
          record s {
            points = drop surplus s.points;
            drawn = remove_lines (take surplus s.points) s.drawn;
          })
      else s
