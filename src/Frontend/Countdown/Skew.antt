-- ===== src/Frontend/Countdown/Skew.antt =====
-- What the clock of a viewer does to the end of a share.
use go_hauk.Prelude.{ℕ, ◌+◌, ◌-◌, ◌*◌, ◌≤◌, ◌≡◌, ◌↔◌, true, none, arith}
use go_hauk.Frontend.Countdown.{seconds_left, is_expired}

-- With a clock that agrees with the server's the share is over exactly from its end on, and the
-- countdown stops half a second later.
seconds_left-agreed :
    (expire now server : ℕ)
    → ((is_expired expire now server server ≡ true) ↔ (1000 * expire ≤ now))
      × ((seconds_left expire now server server ≡ none) ↔ (1000 * expire + 500 ≤ now))
unfolding is_expired seconds_left
seconds_left-agreed expire now server =
    ((λ e. ground arith, λ e. ground arith), (λ e. ground arith, λ e. ground arith))

-- The offset is in seconds where milliseconds are meant, so that all but a thousandth of the
-- difference of the clocks stays in. With a clock that is ahead of the server by `skew`
-- milliseconds the share is over when the server's time, with 999 thousandths of `skew` added, is at
-- its end; with a clock that is behind, with as much taken away.
pub is_expired_skew :
    (expire now server skew : ℕ)
    → skew ≤ now
    → ((is_expired expire now (server + skew) server ≡ true)
        ↔ (1000000 * expire ≤ 1000 * (now - skew) + 999 * skew))
      × ((is_expired expire now server (server + skew) ≡ true)
          ↔ (1000000 * expire + 999 * skew ≤ 1000 * (now + skew)))
unfolding is_expired
is_expired_skew expire now server skew h =
    ((λ e. ground arith, λ e. ground arith), (λ e. ground arith, λ e. ground arith))
