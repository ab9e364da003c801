-- ===== src/Frontend/Polling/Owned.antt =====
-- The timers that run are those that the script can stop.
use go_hauk.Prelude.{
  false, Bool-cases, Option-cases, Text, ℕ, suc, ◌≡◌, refl, ap, inl, inr, Option, none, some, List,
  [], ◌∷◌, arith,
}
use go_hauk.Frontend.Number.{Float}
use go_hauk.Frontend.Countdown.{seconds_left, is_expired}
use go_hauk.Frontend.Polling.{
  Timer, Schedule, Timers, clear_interval, clear_both, set_new_interval, on_count, on_fetch,
  end_share, on_answer, is_changed, Step, count, fetch, answer, failure, Reach, waiting, first,
  next, dropped, unlocked, idle,
}

module _ (F : Float) where
  -- At most one timer runs, and the variable holds it.
  abbrev pub Own : List (Timer F) → Option ℕ → Type 0
  Own [] i = Unit
  Own (t ∷ []) i = i ≡ some t.timer_id
  Own (t ∷ u ∷ ts) i = ⊥

  pub record IsOwned (s : Timers F) : Type 0 where
    pub counting : Own s.counting s.count_intv
    pub fetching : Own s.fetching s.fetch_intv

  clear_interval-Own : (i : Option ℕ) (ts : List (Timer F)) → Own ts i → clear_interval F i ts ≡ []
  clear_interval-Own none [] h = refl
  clear_interval-Own none (t ∷ []) h = cc
  clear_interval-Own none (t ∷ u ∷ ts) h = absurd h
  clear_interval-Own (some i) [] h = refl
  clear_interval-Own (some i) (t ∷ []) h = ground arith
  clear_interval-Own (some i) (t ∷ u ∷ ts) h = absurd h

  -- Nothing runs.
  pub record IsStopped (s : Timers F) : Type 0 where
    pub counting : s.counting ≡ []
    pub fetching : s.fetching ≡ []

  pub clear_both-IsStopped : (s : Timers F) → IsOwned s → IsStopped (clear_both F s)
  unfolding clear_both
  clear_both-IsStopped s h = record {
    counting = clear_interval-Own s.count_intv s.counting h.counting;
    fetching = clear_interval-Own s.fetch_intv s.fetching h.fetching;
  }

  pub end_share-IsStopped : (e : Text) (s : Timers F) → IsOwned s → IsStopped (end_share F e s)
  unfolding end_share
  end_share-IsStopped e s h =
      let c = clear_both-IsStopped s h in record { counting = c.counting; fetching = c.fetching }

  IsStopped-IsOwned : (s : Timers F) → IsStopped s → IsOwned s
  IsStopped-IsOwned s h = record { counting = rw h.counting tt; fetching = rw h.fetching tt }

  -- One countdown timer and one fetch timer run, for the schedule.
  pub record RunsFor (d : Schedule F) (s : Timers F) : Type 0 where
    pub counting :
        (t : Timer F) × (s.counting ≡ t ∷ []) × (t.expire ≡ d.expire) × (t.interval ≡ d.interval)
    pub fetching :
        (t : Timer F) × (s.fetching ≡ t ∷ []) × (t.expire ≡ d.expire) × (t.interval ≡ d.interval)

  pub set_new_interval-RunsFor :
      (d : Schedule F) (now : ℕ) (s : Timers F)
      → IsStopped s
      → RunsFor d (set_new_interval F d now s)
  unfolding set_new_interval
  set_new_interval-RunsFor d now s h =
      let t : Timer F = record {
        timer_id = s.next_id;
        expire = d.expire;
        interval = d.interval;
        load = now;
        server = d.server_time;
      } in
      record {
        counting = (t, ap (λ ts. t ∷ ts) h.counting, refl, refl);
        fetching = (
          record t { timer_id = suc s.next_id },
          ap (λ ts. record t { timer_id = suc s.next_id } ∷ ts) h.fetching,
          refl,
          refl,
        );
      }

  set_new_interval-IsOwned :
      (d : Schedule F) (now : ℕ) (s : Timers F) → IsStopped s → IsOwned (set_new_interval F d now s)
  unfolding set_new_interval
  set_new_interval-IsOwned d now s h = record {
    counting = rw h.counting refl;
    fetching = rw h.fetching refl;
  }

  on_count-IsOwned :
      (now : ℕ) (t : Timer F) (s : Timers F) → IsOwned s → IsOwned (on_count F now t s)
  unfolding on_count
  on_count-IsOwned now t s h = elim (Option-cases (seconds_left t.expire now t.load t.server)) [
    | inl over ↦ rw over (record {
      counting = rw (clear_interval-Own s.count_intv s.counting h.counting) tt;
      fetching = h.fetching;
    })
    | inr (n, left) ↦ rw left (record { counting = h.counting; fetching = h.fetching })
  ]

  on_fetch-IsOwned :
      (e : Text) (now : ℕ) (t : Timer F) (s : Timers F) → IsOwned s → IsOwned (on_fetch F e now t s)
  unfolding on_fetch
  on_fetch-IsOwned e now t s h = elim (Bool-cases (is_expired t.expire now t.load t.server)) [
    | inl over ↦
        let c = IsStopped-IsOwned (end_share F e s) (end_share-IsStopped e s h) in
        rw over (record { counting = c.counting; fetching = c.fetching })
    | inr before ↦ rw before (record { counting = h.counting; fetching = h.fetching })
  ]

  on_answer-IsOwned :
      (t : Timer F) (d : Schedule F) (now : ℕ) (s : Timers F)
      → IsOwned s
      → IsOwned (on_answer F t d now s)
  unfolding on_answer
  on_answer-IsOwned t d now s h = elim (Bool-cases (is_changed F t d)) [
    | inl change ↦
        rw change (set_new_interval-IsOwned d now (clear_both F s) (clear_both-IsStopped s h))
    | inr same ↦ rw same h
  ]

  Step-IsOwned : {e : Text} {s u : Timers F} → Step F e s u → IsOwned s → IsOwned u
  Step-IsOwned {e} {s} (count now t) h = on_count-IsOwned now t s h
  Step-IsOwned {e} {s} (fetch now t) h = on_fetch-IsOwned e now t s h
  Step-IsOwned {e} {s} (answer t d now) h = on_answer-IsOwned t d now s h
  Step-IsOwned {e} {s} failure h = IsStopped-IsOwned (end_share F e s) (end_share-IsStopped e s h)

  -- For a share in the clear: whatever ticks, answers and failures there are, at most one countdown timer
  -- and one fetch timer run, and they are the ones that `countIntv` and `fetchIntv` hold.
  pub idle-IsOwned : {e : Text} {s : Timers F} → Reach F e false s → IsOwned s
  idle-IsOwned waiting = record { counting = tt; fetching = tt }
  idle-IsOwned (first d now) =
      set_new_interval-IsOwned d now (idle F) (record { counting = refl; fetching = refl })
  idle-IsOwned (next r s) = Step-IsOwned s (idle-IsOwned r)
  idle-IsOwned (dropped e r) = absurd (ground (arith))
  idle-IsOwned (unlocked d now e r) = absurd (ground (arith))
