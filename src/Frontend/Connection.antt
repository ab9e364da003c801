-- ===== src/Frontend/Connection.antt =====
-- `getJSON` of frontend/main.js: what an answer of the server does to the page, and the marks that
-- show that the browser is offline.
pub mod Outage
mod Tests
use go_hauk.Prelude.{ℕ, ◌==◌, Bool, true, false, if◌then◌else◌, Option, none, some, List, [], ◌∷◌}

-- `knownOffline`, whether the popup `offline` is shown and whether the class of `notch` is "offline";
-- `none` where the page has no such element.
pub record Connection : Type 0 where
  pub known_offline : Bool
  pub popup : Option Bool
  pub notch : Option Bool

-- A write to an element, if the page has it.
abbrev pub write : Bool → Option Bool → Option Bool
write b none = none
write b (some a) = some b

-- A finished request (`readyState` 4): its status and `JSON.parse` of its text, `none` if that throws.
pub record Reply (J : Type 0) : Type 0 where
  pub status : ℕ
  pub body : Option J

-- "Request successful. Reset offline state".
unfoldable pub reset : Connection → Connection
reset c = record { known_offline = false; popup = write false c.popup; notch = write false c.notch }

-- "Requested failed; offline."
unfoldable pub go_offline : Connection → Connection
go_offline c =
    if c.known_offline
    then c
    else record { known_offline = true; popup = write true c.popup; notch = write true c.notch }

-- The handler of the button that dismisses the popup.
unfoldable pub dismiss : Connection → Connection
dismiss c = record c { popup = write false c.popup }

-- What happens to the marks over time.
pub data Event (J : Type 0) : Type 0 where
  reply : Reply J → Event J
  dismissed : Event J

-- A callback changes the state of the script, and says whether it threw.
module _ {J S : Type 0} (callback : J → S → S × Bool) (invalid : S → S) where
  abbrev caught : S × Bool → S
  caught (s, threw) = if threw then invalid s else s

  -- The `try` block.
  abbrev deliver : Option J → S → S
  deliver none s = invalid s
  deliver (some j) s = caught (callback j s)

  -- The handler of a finished request.
  unfoldable pub on_reply : Reply J → Connection × S → Connection × S
  unfolding reset go_offline
  on_reply r (c, s) =
      if r.status == 200
      then (reset c, deliver r.body s)
      else if r.status == 404
      then (c, invalid s)
      else (go_offline c, s)

  unfoldable pub on_event : Event J → Connection × S → Connection × S
  unfolding on_reply dismiss
  on_event (reply r) cs = on_reply r cs
  on_event dismissed (c, s) = (dismiss c, s)

  unfoldable pub run : List (Event J) → Connection × S → Connection × S
  unfolding on_event
  run [] cs = cs
  run (e ∷ es) cs = run es (on_event e cs)
