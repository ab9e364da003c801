-- ===== src/Frontend/Connection/Tests.antt =====
-- An outage, and the theorems at concrete inputs.
use go_hauk.Prelude.{ℕ, Bool, true, false, none, some, List, [], ◌∷◌, ◌≡◌, refl, ◌==◌}
use go_hauk.Frontend.Connection.{Connection, Event, reply, dismissed, run}
use go_hauk.Frontend.Connection.Outage.{Shows, ShownOnly, is_outage, run-Shows}

abbrev online : Connection
online = record { known_offline = false; popup = some false; notch = some false }

abbrev failing : Event ℕ
failing = reply (record { status = 503; body = none })

abbrev answered : Event ℕ
answered = reply (record { status = 200; body = some 7 })

-- The state of the script: the numbers received; a callback throws at 0.
abbrev store : ℕ → List ℕ → List ℕ × Bool
store n s = (n ∷ s, n == 0)

abbrev forget : List ℕ → List ℕ
forget s = []

offline_then_back : run store forget (failing ∷ answered ∷ []) (online, []) ≡ (online, 7 ∷ [])
unfolding run
offline_then_back = refl

run-Shows_example :
    Shows (run store forget (failing ∷ dismissed ∷ []) (online, [])).0.notch true
    × ShownOnly (run store forget (failing ∷ dismissed ∷ []) (online, [])).0.popup true
unfolding is_outage
run-Shows_example =
    run-Shows store forget (failing ∷ dismissed ∷ []) online []
      (record { notch = refl; popup = λ h. h })

abbrev dismissed_popup : Connection
dismissed_popup = record { known_offline = true; popup = some false; notch = some true }
