-- ===== src/Frontend/Speed.antt =====
-- The speed that frontend/main.js shows for a user, in the middle of `processUpdate`.
pub mod Window
mod Tests
use go_hauk.Prelude.{if◌then◌else◌, length, get_elem?, ℕ, zero, suc, Option, none, some, List}
use go_hauk.Frontend.Number.{Float, le}
use go_hauk.Frontend.Geometry.{distance, velocity}
use go_hauk.Frontend.Trail.{Point, Share, Face}

module _ (F : Float) where
  open F use {Num, of_ℕ, add, sub, mul, fixed1}

  -- `VELOCITY_UNIT.mpsMultiplier` and `VELOCITY_DELTA_TIME`, which /dynamic.js.php sends.
  pub record SpeedConfig : Type 0 where
    pub multiplier : Num
    pub delta_time : Num

  -- `dTime` and `distance(pt1, pt2)`.
  abbrev pub segment : Point F → Point F → Num × Num
  segment p q = (sub q.time p.time, distance F p.place q.place)

  abbrev pub segment? : Option (Point F) → Option (Point F) → Option (Num × Num)
  segment? none q = none
  segment? (some p) none = none
  segment? (some p) (some q) = some (segment p q)

  -- The `while` loop, over `idx` and the sums `time` and `dist`; it stops at `idx` 2.
  unfoldable pub window : Num → ℕ → List (Point F) → Num × Num → Num × Num
  window delta zero ps acc = acc
  window delta (suc zero) ps acc = acc
  window delta (suc (suc zero)) ps acc = acc
  window delta (suc (suc (suc k))) ps (time, dist) =
      elim (segment? (get_elem? ps (suc k)) (get_elem? ps (suc (suc k)))) [
        | none ↦ (time, dist)
        | some (d_time, d) ↦
            let rest = window delta (suc (suc k)) ps (add time d_time, add dist d) in
            if le F (add time d_time) delta then rest else (time, dist)
      ]

  -- The speed from the locations.
  unfoldable pub local_speed : SpeedConfig → List (Point F) → Num
  unfolding window
  local_speed cfg ps =
      let w = window cfg.delta_time (length ps) ps (of_ℕ 0, of_ℕ 0) in
      velocity F cfg.multiplier w.1 w.0

  -- "Prefer client-provided speed if possible."
  abbrev pub reported : Option (Point F) → Option Num
  reported none = none
  reported (some p) = p.spd

  abbrev pub shown_speed : SpeedConfig → Option Num → List (Point F) → Num
  shown_speed cfg none ps = local_speed cfg ps
  shown_speed cfg (some spd) ps = mul spd cfg.multiplier

  abbrev pub show_speed : SpeedConfig → Option (Face F) → Option (Point F) → Share F → Share F × Num
  show_speed cfg none last s = (s, of_ℕ 0)
  show_speed cfg (some f) last s =
      let vel = shown_speed cfg (reported last) s.points in
      (record s { face = some (record f { speed = fixed1 vel }) }, vel)

  -- Writes the speed into the icon, if it is on the page; the speed is handed on as `vel`.
  unfoldable pub update_speed : SpeedConfig → Share F × Option (Point F) → Share F × Num
  update_speed cfg (s, last) = show_speed cfg s.face last s
