-- ===== src/Frontend/Polling/Tests.antt =====
-- A share that is polled, prolonged and over, and the theorems at these states.
use go_hauk.Prelude.{length, codes, ◌≡◌, refl, true, false, [], ◌∷◌, ◌++◌, map}
use go_hauk.Frontend.Number.{whole}
use go_hauk.Frontend.Countdown.{is_expired}
use go_hauk.Frontend.Polling.{
  Timer, Schedule, Timers, set_new_interval, on_answer, clear_both, end_share, answer, Reach, first,
  next, dropped, unlocked, idle, poll_url,
}
use go_hauk.Frontend.Polling.Owned.{IsOwned, idle-IsOwned}

-- Until 200 s, every 5 s.
abbrev schedule : Schedule whole
schedule = record { expire = 200; interval = 5; server_time = 100000 }

abbrev prolonged : Schedule whole
prolonged = record { expire = 300; interval = 5; server_time = 110000 }

abbrev polled : Timers whole
polled = set_new_interval whole schedule 100000 (idle whole)

abbrev timer : Timer whole
timer = record { timer_id = 1; expire = 200; interval = 5; load = 100000; server = 100000 }

Reach-polled : Reach whole (codes "over") false polled
Reach-polled = first schedule 100000

abbrev renewed : Timers whole
renewed = on_answer whole timer prolonged 110000 polled

url : poll_url (codes "ab") (codes "5") ≡ codes "./api/fetch.php?id=ab&since=5"
unfolding poll_url
url = refl

renewed_ids :
    map (λ (t : Timer whole). t.timer_id) (renewed.counting ++ renewed.fetching) ≡ 2 ∷ 3 ∷ []
unfolding on_answer
renewed_ids = refl

expired : is_expired timer.expire 200000 timer.load timer.server ≡ true
unfolding is_expired
expired = refl

-- A sealed share whose answer could not be opened, and is to be opened again: an answer of a fetch
-- under way starts timers before the password is there, and then nothing stops them any more.
abbrev crossed : Timers whole
crossed =
    set_new_interval whole prolonged 120000
      (on_answer whole timer prolonged 110000 (clear_both whole polled))

Reach-crossed : Reach whole (codes "over") true crossed
Reach-crossed =
    unlocked prolonged 120000 refl
      (next (dropped refl (first schedule 100000)) (answer timer prolonged 110000))

two_pairs :
    (length crossed.fetching ≡ 2) × (length (end_share whole (codes "over") crossed).fetching ≡ 1)
unfolding set_new_interval on_answer clear_both end_share
two_pairs = (refl, refl)

idle-IsOwned_example : IsOwned whole renewed
idle-IsOwned_example = idle-IsOwned whole (next Reach-polled (answer timer prolonged 110000))
