-- ===== src/Frontend/Staleness.antt =====
-- Users of whom nothing was heard for a while: the second loop of `processUpdate` in
-- frontend/main.js, `setAccuracyCircleColor`, and the text of the last update.
pub mod Age
pub mod Marks
pub mod Total
mod Tests
use go_hauk.Prelude.{
  leb, if◌then◌else◌, last?, Text, codes, replace_all, Dict, ℕ, ◌/◌, Bool, Option, none, some, [],
  ◌∷◌,
}
use go_hauk.Frontend.Number.{Float}
use go_hauk.Frontend.Countdown.{show}
use go_hauk.Frontend.Trail.{State, state_name, state_color, Point, Circle, Face, Share}

-- `STATE_DEAD_COLOR`
abbrev pub dead_color : Text
dead_color = codes "#555555"

-- The strings `last_update_seconds` to `last_update_days`.
pub data AgeUnit : Type 0 where
  seconds minutes hours days : AgeUnit

-- "Calculate time since last update and choose an appropriate unit."
unfoldable pub age_unit : ℕ → ℕ × AgeUnit
age_unit t =
    if leb 60 t
    then (let m = t / 60 in
        if leb 60 m
        then (let h = m / 60 in if leb 24 h then (h / 24, days) else (h, hours))
        else (m, minutes))
    else (t, seconds)

-- `unit.split("{{time}}").join(time)`, where `units` are the strings.
unfoldable pub age_text : (AgeUnit → Text) → ℕ → Text
unfolding age_unit show replace_all
age_text units t = let (n, u) = age_unit t in replace_all (codes "{{time}}") (show n) (units u)

-- The class of the arrow when the user is offline, and when it is not.
unfoldable pub deaden : Text → Text
unfolding replace_all
deaden c = replace_all (codes "rough") (codes "dead") (replace_all (codes "live") (codes "dead") c)

unfoldable pub revive : State → Text → Text
unfolding replace_all
revive s c = replace_all (codes "dead") (state_name s) c

module _ (F : Float) where
  open F use {Num, sub, lt, round}

  pub record StaleConfig : Type 0 where
    pub offline_timeout : Num
    pub units : AgeUnit → Text

  -- `setAccuracyCircleColor`
  abbrev pub set_color : Text → Option (Circle F) → Option (Circle F)
  set_color c none = none
  set_color c (some k) = some (record k { color = c })

  abbrev pub is_stale : StaleConfig → Num → Point F → Bool
  is_stale cfg server_time p = lt p.time (sub server_time cfg.offline_timeout)

  abbrev mark_dead : StaleConfig → Num → Point F → Face F → Share F → Share F
  mark_dead cfg server_time p f s = record s {
    face = some (record f {
      arrow = deaden f.arrow;
      label = codes "dead";
      last_seen = age_text cfg.units (round (sub server_time p.time));
    });
    circle = set_color dead_color s.circle;
  }

  abbrev mark_alive : Face F → Share F → Share F
  mark_alive f s = record s {
    face = some (record f { arrow = revive s.state f.arrow; label = state_name s.state });
    circle = set_color (state_color s.state) s.circle;
  }

  abbrev mark_face :
      StaleConfig → Num → Option (Face F) → Option (Point F) → Share F → Option (Share F)
  mark_face cfg server_time none last s = some s
  mark_face cfg server_time (some f) none s = none
  mark_face cfg server_time (some f) (some p) s =
      some (if is_stale cfg server_time p then mark_dead cfg server_time p f s else mark_alive f s)

  -- One round of the loop; `none` is the read of `time` of `undefined`, which throws.
  unfoldable pub mark_share : StaleConfig → Num → Share F → Option (Share F)
  mark_share cfg server_time s = mark_face cfg server_time s.face (last? s.points) s

  abbrev pub keep_going :
      Text → Option (Share F) → Option (Dict (Share F)) → Option (Dict (Share F))
  keep_going u none rest = none
  keep_going u (some s) none = none
  keep_going u (some s) (some d) = some ((u, s) ∷ d)

  -- The loop over `shares`.
  unfoldable pub mark_shares : StaleConfig → Num → Dict (Share F) → Option (Dict (Share F))
  unfolding mark_share
  mark_shares cfg server_time [] = some []
  mark_shares cfg server_time ((u, s) ∷ d) =
      keep_going u (mark_share cfg server_time s) (mark_shares cfg server_time d)
