-- ===== src/Frontend/Connection/Outage.antt =====
-- The marks tell the truth about the last answers, and the popup comes once in an outage.
use go_hauk.Prelude.{
  ◌==◌, Bool, true, false, if◌then◌else◌, Option, none, some, List, [], ◌∷◌, ◌≡◌, refl, ap, ◌∙◌,
  arith, ◌≢◌, All,
}
use go_hauk.Frontend.Connection.{
  Connection, reset, go_offline, dismiss, on_reply, Event, reply, dismissed, on_event, run,
}

-- A mark that the page has shows `b`.
abbrev pub Shows : Option Bool → Bool → Type 0
Shows none b = Unit
Shows (some a) b = a ≡ b

-- A mark that the page has is shown only if `b`.
abbrev pub ShownOnly : Option Bool → Bool → Type 0
ShownOnly none b = Unit
ShownOnly (some a) b = a ≡ true → b ≡ true

-- The notch shows exactly whether the page knows to be offline, and the popup is up only then.
pub record IsHonest (c : Connection) : Type 0 where
  pub notch : Shows c.notch c.known_offline
  pub popup : ShownOnly c.popup c.known_offline

reset-IsHonest : (c : Connection) → IsHonest (reset c)
unfolding reset
reset-IsHonest c = ground arith

go_offline-IsHonest : (c : Connection) → IsHonest c → IsHonest (go_offline c)
unfolding go_offline
go_offline-IsHonest c h = ground arith

dismiss-IsHonest : (c : Connection) → IsHonest c → IsHonest (dismiss c)
unfolding dismiss
dismiss-IsHonest c h = ground arith

-- The answers of an outage: neither 200 nor 404.
abbrev pub IsFailure : {J : Type 0} → Event J → Type 0
IsFailure (reply r) = (r.status ≢ 200) × (r.status ≢ 404)
IsFailure dismissed = ⊥

-- Whether the last of the requests answered otherwise than by 404 failed; `before` is what held when
-- there is none.
abbrev pub outage_after : {J : Type 0} → Event J → Bool → Bool
outage_after (reply r) before =
    if r.status == 200 then false else if r.status == 404 then before else true
outage_after dismissed before = before

unfoldable pub is_outage : {J : Type 0} → List (Event J) → Bool → Bool
is_outage [] before = before
is_outage (e ∷ es) before = is_outage es (outage_after e before)

module _ {J S : Type 0} (callback : J → S → S × Bool) (invalid : S → S) where
  on_event-IsHonest :
      (e : Event J) (c : Connection) (s : S)
      → IsHonest c
      → IsHonest (on_event callback invalid e (c, s)).0
  unfolding on_event
  on_event-IsHonest (reply r) c s h = ground (arith, reset-IsHonest c, go_offline-IsHonest c)
  on_event-IsHonest dismissed c s h = dismiss-IsHonest c h

  run-IsHonest :
      (es : List (Event J)) (c : Connection) (s : S)
      → IsHonest c
      → IsHonest (run callback invalid es (c, s)).0
  unfolding run
  run-IsHonest [] c s h = h
  run-IsHonest (e ∷ es) c s h = run-IsHonest es _ _ (on_event-IsHonest e c s h)

  on_event-outage_after :
      (e : Event J) (c : Connection) (s : S)
      → (on_event callback invalid e (c, s)).0.known_offline ≡ outage_after e c.known_offline
  unfolding on_event
  on_event-outage_after (reply r) c s = ground arith
  on_event-outage_after dismissed c s = refl

  run-is_outage :
      (es : List (Event J)) (c : Connection) (s : S)
      → (run callback invalid es (c, s)).0.known_offline ≡ is_outage es c.known_offline
  unfolding run is_outage
  run-is_outage [] c s = refl
  run-is_outage (e ∷ es) c s =
      run-is_outage es _ _ ∙ ap (is_outage es) (on_event-outage_after e c s)

  -- Whatever happens, the notch shows exactly whether the last request that was answered otherwise
  -- than by 404 failed, and the popup is up only if it did.
  pub run-Shows :
      (es : List (Event J)) (c : Connection) (s : S)
      → IsHonest c
      → Shows (run callback invalid es (c, s)).0.notch (is_outage es c.known_offline)
        × ShownOnly (run callback invalid es (c, s)).0.popup (is_outage es c.known_offline)
  run-Shows es c s h =
      let t = run-IsHonest es c s h in rw (← run-is_outage es c s) (t.notch, t.popup)

  -- Once the page knows that it is offline, failed requests change nothing: a popup that was
  -- dismissed stays away until the outage is over.
  pub run_in_outage :
      (es : List (Event J)) (c : Connection) (s : S)
      → c.known_offline ≡ true
      → All IsFailure es
      → run callback invalid es (c, s) ≡ (c, s)
  unfolding run on_event on_reply go_offline
  run_in_outage [] c s k f = refl
  run_in_outage (reply r ∷ es) c s k f = ground (arith, run_in_outage es c s)
  run_in_outage (dismissed ∷ es) c s k f = absurd f.0
