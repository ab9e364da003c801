-- ===== src/Server/Fetch/Tests.antt =====
-- Polls of a share of one user and of a group, and the theorems at them.
use mathlib.Core.Option.{some-injective}
use go_hauk.Prelude.{
  ◌==◌, if◌then◌else◌, Bool-cases, All, Text, codes, text_eq, Dict, lookup, ℕ, ◌+◌, ◌-◌, ◌≡◌, refl,
  subst, inl, inr, true, false, Option, none, some, List, [], ◌∷◌, arith,
}
use go_hauk.Frontend.Number.{whole}
use go_hauk.Frontend.Trail.{Point, Share, new_share, receive}
use go_hauk.Frontend.Trail.Incremental.{Agree, newer}
use go_hauk.Frontend.Trail.Whole.{whole-IsOrder, whole-IsComparable}
use go_hauk.Frontend.Locate.{nobody}
use go_hauk.Frontend.Shares.{oldest_point_time}
use go_hauk.Frontend.Update.{Config, Page, group, apply}
use go_hauk.Server.Session.{Cell, null, num, Session}
use go_hauk.Server.Session.Since.{as_rows, IsTimed}
use go_hauk.Server.Fetch.{SoloResponse, GroupResponse, solo_response, group_response, handle_fetch}
use go_hauk.Server.Shares.{SoloShare, GroupShare, Stored, solo_share, group_share}
use go_hauk.Server.Fetch.Solo.{handle_fetch-receive}
use go_hauk.Server.Fetch.Group.{as_users, any_idle, AllTimed, handle_fetch-apply}

abbrev point : ℕ → List (Cell whole)
point t = num t ∷ num t ∷ num t ∷ num 0 ∷ null ∷ null ∷ []

abbrev session : List (List (Cell whole)) → Session whole
session points = record {
  id = codes "5";
  expire = 100;
  interval = 1;
  targets = codes "ab" ∷ [];
  points = points;
  encrypted = false;
  salt = [];
  max_pts = 5;
}

abbrev walking : Session whole
walking = session (point 1 ∷ point 2 ∷ point 3 ∷ [])

-- Session 1 walks, and the others stand since the time 2.
abbrev load_session : Text → Option (Session whole)
load_session [] = none
load_session (c ∷ t) = some (if c == 49 then walking else session (point 2 ∷ []))

abbrev solo : SoloShare
solo = record { id = codes "ab"; expire = 100; host = codes "1"; adoptable = false }

abbrev team : GroupShare
team = record {
  id = codes "ab";
  expire = 100;
  hosts = (codes "x", codes "1") ∷ (codes "y", codes "2") ∷ [];
  group_pin = 123456;
}

-- A number of one digit.
abbrev parse_float : Text → ℕ
parse_float [] = 0
parse_float (c ∷ t) = c - 48

abbrev load_solo : Text → Option Stored
load_solo id = some (solo_share solo)

abbrev load_team : Text → Option Stored
load_team id = some (group_share team)

abbrev last : Point whole
last = record { place = record { lat = 2; lon = 2 }; line = none; time = 2; spd = none; acc = none }

abbrev entry : Share whole
entry = record (new_share whole (codes "q")) { marker = some last.place; points = last ∷ [] }

abbrev shares : Dict (Share whole)
shares = (codes "", entry) ∷ []

handle_fetch-receive_example :
    (r : SoloResponse whole) × (handle_fetch whole load_session load_solo parse_float
        (codes "ab")
        (whole.text (oldest_point_time whole shares))
        3
      ≡ solo_response r)
    × Agree whole
        (receive whole (as_rows whole r.points) entry)
        (receive whole (as_rows whole walking.points) entry)
unfolding oldest_point_time lookup text_eq
handle_fetch-receive_example =
    handle_fetch-receive whole load_session whole-IsOrder load_solo parse_float (codes "ab") 3 solo
      walking shares entry last (ground arith) refl refl refl (tt, (tt, (tt, tt))) refl refl
      (whole-IsComparable 2) refl

abbrev config : Config whole
config = record {
  speed = record { multiplier = 1; delta_time = 20 };
  stale = record { offline_timeout = 30; units = λ u. codes "{{time}}" };
  max_points = 2;
  default_zoom = 14;
  fit = λ places. some 10;
  random_id = λ n. (97 + n) ∷ [];
}

abbrev page : Page whole
page = record {
  shares = [];
  has_first = true;
  has_initiated = true;
  view = record { following = nobody; pan = none; zoom = 0 };
  map_shown = true;
  ids = 0;
}

-- The user who stands has no point after the time 2.
one_idle : any_idle whole load_session 2 team.hosts ≡ true
unfolding newer
one_idle = refl

load_session-AllTimed : AllTimed whole load_session
load_session-AllTimed [] s e clear = cc
load_session-AllTimed (c ∷ t) s e clear = elim (Bool-cases (c == 49)) [
  | inl one ↦
      subst (λ (x : Session whole). All (IsTimed whole) x.points) (some-injective _ _ (rw one at e))
        (tt, (tt, (tt, tt)))
  | inr other ↦
      subst (λ (x : Session whole). All (IsTimed whole) x.points)
        (some-injective _ _ (rw other at e)) (tt, tt)
]

handle_fetch-apply_example :
    (r : GroupResponse whole) × (handle_fetch whole load_session load_team parse_float
        (codes "ab")
        (codes "2")
        3
      ≡ group_response r)
    × ((apply whole config r.server_time (group (as_users whole r.points)) page).1
        ≡ any_idle whole load_session 2 team.hosts)
handle_fetch-apply_example =
    handle_fetch-apply whole load_session load_team parse_float config page (codes "ab") (codes "2")
      3 team (omega arith) tt refl (ground arith) refl load_session-AllTimed
