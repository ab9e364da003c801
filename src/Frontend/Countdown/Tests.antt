-- ===== src/Frontend/Countdown/Tests.antt =====
-- Texts of the countdown, and the theorems at concrete inputs.
use go_hauk.Prelude.{codes, ◌+◌, ◌-◌, ◌*◌, ◌≤◌, ◌≡◌, refl, ◌↔◌, true, none, arith}
use go_hauk.Frontend.Countdown.{show, clock_text, seconds_left, is_expired}
use go_hauk.Frontend.Countdown.Skew.{is_expired_skew}
use go_hauk.Frontend.Countdown.Clock.{read_clock, read_clock-clock_text}

an_hour : clock_text 3661 ≡ codes "1:01:01"
unfolding clock_text show
an_hour = refl

minutes_only : clock_text 600 ≡ codes "10:00"
unfolding clock_text show
minutes_only = refl

read_clock-clock_text_example : read_clock (clock_text 3661) ≡ 3661
read_clock-clock_text_example = read_clock-clock_text 3661

-- One second before the end of the share the offset of a clock ten seconds ahead does not help.
ten_ahead :
    (seconds_left 1000 1009000 1000000 990000 ≡ none)
    × (is_expired 1000 1009000 1000000 990000 ≡ true)
unfolding seconds_left is_expired
ten_ahead = (refl, refl)

is_expired_skew_example :
    ((is_expired 1000 1009000 (990000 + 10000) 990000 ≡ true)
      ↔ (1000000 * 1000 ≤ 1000 * (1009000 - 10000) + 999 * 10000))
    × ((is_expired 1000 1009000 990000 (990000 + 10000) ≡ true)
        ↔ (1000000 * 1000 + 999 * 10000 ≤ 1000 * (1009000 + 10000)))
is_expired_skew_example = is_expired_skew 1000 1009000 990000 10000 (omega arith)
