-- ===== src/Frontend/Geometry.antt =====
-- `distance`, `velocity` and `angle` of frontend/main.js, over the numbers of Number.antt.
use go_hauk.Prelude.{if◌then◌else◌, ◌*◌}
use go_hauk.Frontend.Number.{Float}

module _ (F : Float) where
  open F use {Num, of_ℕ, pi, add, sub, mul, div, rem, eq, sin, cos, asin, sqrt, atan2}

  -- A latitude and a longitude.
  pub record Place : Type 0 where
    pub lat : Num
    pub lon : Num

  -- `x * d2r`
  unfoldable pub radians : Num → Num
  radians x = mul x (div pi (of_ℕ 180))

  abbrev square : Num → Num
  square x = mul x x

  abbrev half_sin : Num → Num
  half_sin x = sin (div x (of_ℕ 2))

  unfoldable pub distance : Place → Place → Num
  unfolding radians
  distance from to =
      let fla = radians from.lat in
      let tla = radians to.lat in
      let flo = radians from.lon in
      let tlo = radians to.lon in
      let hav_lat = square (half_sin (sub tla fla)) in
      let hav_lon = square (half_sin (sub tlo flo)) in
      asin (sqrt (add hav_lat (mul (mul (cos fla) (cos tla)) hav_lon)))

  -- `HAV_MOD`, in metres.
  unfoldable pub hav_mod : Num
  hav_mod = mul (of_ℕ (6371 * 2)) (of_ℕ 1000)

  -- `velocity`, where `multiplier` is `VELOCITY_UNIT.mpsMultiplier`.
  unfoldable pub velocity : Num → Num → Num → Num
  unfolding hav_mod
  velocity multiplier dist intv =
      if eq intv (of_ℕ 0) then of_ℕ 0 else div (mul (mul dist multiplier) hav_mod) intv

  unfoldable pub angle : Place → Place → Num
  unfolding radians
  angle from to =
      let from_lat = radians from.lat in
      let to_lat = radians to.lat in
      let turn = sub (radians to.lon) (radians from.lon) in
      let x =
        sub (mul (cos from_lat) (sin to_lat)) (mul (mul (sin from_lat) (cos to_lat)) (cos turn)) in
      let y = mul (sin turn) (cos to_lat) in
      let heading = div (atan2 y x) (div pi (of_ℕ 180)) in rem (add heading (of_ℕ 360)) (of_ℕ 360)
