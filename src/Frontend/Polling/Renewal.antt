-- ===== src/Frontend/Polling/Renewal.antt =====
-- What a poll does to the timers: it renews them for a changed schedule and stops them at the end.
use go_hauk.Prelude.{Bool-cases, Text, ℕ, ◌≡◌, refl, inl, inr, true, false, [], ◌∷◌, ◌++◌, arith}
use go_hauk.Frontend.Number.{Float}
use go_hauk.Frontend.Countdown.{is_expired}
use go_hauk.Frontend.Polling.{Timer, Timers, on_fetch, Reach}
use go_hauk.Frontend.Polling.Owned.{IsStopped, end_share-IsStopped, idle-IsOwned}

module _ (F : Float) where
  -- In every such state, a tick of the fetch timer makes its request last; when the share has
  -- expired no timer runs after it, the countdown shows the end and the dialog is open, and before
  -- that nothing else changes.
  pub on_fetch_lem :
      {e : Text} {s : Timers F} (now : ℕ) (t : Timer F)
      → Reach F e false s
      → ((on_fetch F e now t s).requests ≡ s.requests ++ t ∷ [])
        × (is_expired t.expire now t.load t.server ≡ true
            → IsStopped F (on_fetch F e now t s)
              × ((on_fetch F e now t s).countdown ≡ e)
              × ((on_fetch F e now t s).expired_dialog ≡ true))
        × (is_expired t.expire now t.load t.server ≡ false
            → on_fetch F e now t s ≡ record s { requests = s.requests ++ t ∷ [] })
  unfolding on_fetch
  on_fetch_lem {e} {s} now t r = elim (Bool-cases (is_expired t.expire now t.load t.server)) [
    | inl over ↦
        let c = end_share-IsStopped F e s (idle-IsOwned F r) in
        rw over (
          refl,
          λ _. (record { counting = c.counting; fetching = c.fetching }, refl, refl),
          λ h. ground arith,
        )
    | inr before ↦ rw before (refl, λ h. ground arith, λ _. refl)
  ]
