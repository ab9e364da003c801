-- ===== src/Frontend/Dialogs.antt =====
-- The dialogs of frontend/main.js: messages, the list of users with its control (`L.control.Radar`), and
-- the details of a user with the buttons that follow the user and navigate to the last place.
pub mod Kept
pub mod Details
mod Tests
use go_hauk.Prelude.{
  Text, codes, Dict, lookup, ℕ, Bool, true, false, Option, none, some, List, [], ◌∷◌,
}
use go_hauk.Frontend.Number.{Float}
use go_hauk.Frontend.Geometry.{Place}
use go_hauk.Frontend.Trail.{Share}
use go_hauk.Frontend.Shares.{View, follow, auto_center, navigate}

-- What is shown, and `dataset.user` of the two buttons of the details, which are set together.
pub record Dialogs : Type 0 where
  pub message_shown : Bool
  pub title : Text
  pub body : Text
  pub list_shown : Bool
  pub details_shown : Bool
  pub header : Text
  pub user : Option Text

-- `showMessage`, and the button that dismisses the message.
unfoldable pub show_message : Text → Text → Dialogs → Dialogs
show_message title body d = record d { title = title; body = body; message_shown = true }

unfoldable pub dismiss_message : Dialogs → Dialogs
dismiss_message d = record d { message_shown = false }

-- A click on the entry of a user in the list.
unfoldable pub open_details : Text → Dialogs → Dialogs
open_details u d = record d { list_shown = false; details_shown = true; header = u; user = some u }

unfoldable pub close_list : Dialogs → Dialogs
close_list d = record d { list_shown = false }

unfoldable pub close_details : Dialogs → Dialogs
close_details d = record d { details_shown = false }

-- The control shows the list. If there is one entry it is clicked; an entry may be hidden.
abbrev click_only : List Text → Dialogs → Dialogs
click_only (u ∷ []) d = open_details u d
click_only _ d = d

unfoldable pub on_radar : List Text → Dialogs → Dialogs
unfolding open_details
on_radar entries d = click_only entries (record d { list_shown = true })

-- `dataset.user` as the name of a property: without a value it is "undefined".
abbrev pub user_name : Option Text → Text
user_name none = codes "undefined"
user_name (some u) = u

module _ (F : Float) where
  -- The entries of the list are those of `shares`, in their order: both are made together.
  abbrev pub entries : Dict (Share F) → List Text
  entries [] = []
  entries ((u, s) ∷ d) = u ∷ entries d

  -- The dialogs, `shares`, the map, and the address that was opened last.
  pub record Screen : Type 0 where
    pub dialogs : Dialogs
    pub shares : Dict (Share F)
    pub view : View F
    pub opened : Option Text

  -- What follows an exception in a handler is not run.
  abbrev pub finish_handler : (Dialogs → Dialogs) → View F × Bool → Screen → Screen × Bool
  finish_handler k (v, true) s = (record s { view = v }, true)
  finish_handler k (v, false) s = (record s { view = v; dialogs = k s.dialogs }, false)

  -- A click on "follow"; the flag says whether the handler threw.
  unfoldable pub on_follow : Screen → Screen × Bool
  unfolding follow close_details
  on_follow s = finish_handler close_details (follow F (user_name s.dialogs.user) s.shares s.view) s

  -- A click on the marker of a user, `haukUser`.
  unfoldable pub on_marker : Text → Screen → Screen × Bool
  unfolding follow
  on_marker hauk_user s = finish_handler (λ d. d) (follow F hauk_user s.shares s.view) s

  -- The address is opened if there is one.
  abbrev open_uri : Option Text → Option Text → Option Text
  open_uri none before = before
  open_uri (some uri) before = some uri

  abbrev navigate_to : Option (Share F) → Screen → Screen × Bool
  navigate_to none s = (s, true)
  navigate_to (some e) s = (
    record s { opened = open_uri (navigate F e) s.opened; dialogs = close_details s.dialogs },
    false,
  )

  -- A click on "navigate".
  unfoldable pub on_navigate : Screen → Screen × Bool
  unfolding navigate close_details
  on_navigate s = navigate_to (lookup (user_name s.dialogs.user) s.shares) s

  -- A click on "show all".
  unfoldable pub on_show_all : (List (Place F) → Option ℕ) → ℕ → Screen → Screen × Bool
  unfolding auto_center close_list
  on_show_all fit default_zoom s =
      finish_handler close_list (auto_center F fit default_zoom s.shares s.view) s
