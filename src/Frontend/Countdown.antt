-- ===== src/Frontend/Countdown.antt =====
-- The clock of `setNewInterval` in frontend/main.js: the time left of a share, and its text. Times are
-- exact: `Date.now()` and the server's time in milliseconds, so that quotients are in microseconds.
pub mod Clock
pub mod Skew
mod Tests
use go_hauk.Prelude.{
  ltb, leb, if◌then◌else◌, Text, codes, ℕ, zero, suc, ◌+◌, ◌-◌, ◌*◌, ◌/◌, ◌%◌, Bool, ◌&&◌, Option,
  none, some, [], ◌∷◌, ◌++◌,
}

-- The decimal digits of a number; `fuel` above it is enough.
unfoldable pub digits_from : ℕ → ℕ → Text
digits_from zero n = []
digits_from (suc fuel) n =
    let more = digits_from fuel (n / 10) ++ (48 + n % 10) ∷ [] in
    if ltb n 10 then (48 + n) ∷ [] else more

-- A number joined to a string.
unfoldable pub show : ℕ → Text
unfolding digits_from
show n = digits_from (suc n) n

-- The statements that build `time` from the seconds left.
unfoldable pub clock_text : ℕ → Text
clock_text seconds =
    let h = seconds / 3600 in
    let m = seconds % 3600 / 60 in
    let s = seconds % 60 in
    (if ltb 0 h then show h ++ codes ":" else [])
    ++ ((if ltb 0 h && ltb m 10 then codes "0" else [])
        ++ (show m ++ (codes ":" ++ ((if ltb s 10 then codes "0" else []) ++ show s))))

-- `(Date.now() - timeOffset) / 1000` in microseconds, where `timeOffset` is
-- `Date.now() / 1000 - serverTime` of the moment `load`: milliseconds less seconds.
unfoldable pub elapsed : ℕ → ℕ → ℕ → ℕ
elapsed now load server = 1000 * now + server - load

-- `Math.round` of a number of microseconds as seconds.
unfoldable pub round_seconds : ℕ → ℕ
round_seconds micros = (micros + 500000) / 1000000

-- The seconds left at a tick of the countdown; `none` is a negative number, at which it stops.
unfoldable pub seconds_left : ℕ → ℕ → ℕ → ℕ → Option ℕ
unfolding elapsed round_seconds
seconds_left expire now load server =
    let t = round_seconds (elapsed now load server) in
    if ltb expire t then none else some (expire - t)

-- The test of the fetch task that the share has expired.
unfoldable pub is_expired : ℕ → ℕ → ℕ → ℕ → Bool
unfolding elapsed
is_expired expire now load server = leb (1000000 * expire) (elapsed now load server)
