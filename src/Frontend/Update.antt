-- ===== src/Frontend/Update.antt =====
-- `processUpdate` of frontend/main.js for data in the clear: the loop over the users of an answer, the
-- loop over all users, and the first centering of the map.
pub mod Sound
pub mod Invariant
pub mod Throws
mod Tests
use go_hauk.Prelude.{
  if◌then◌else◌, Text, codes, text_eq, Dict, lookup, insert, ℕ, suc, Bool, true, false, not, ◌&&◌,
  ◌||◌, Option, none, some, List, [], ◌∷◌, ◌++◌,
}
use go_hauk.Frontend.Number.{Float}
use go_hauk.Frontend.Geometry.{Place, angle}
use go_hauk.Frontend.Locate.{Following, nobody, only_user, user}
use go_hauk.Frontend.Trail.{State, state_name, Row, Point, Face, Share, new_share, receive, prune}
use go_hauk.Frontend.Speed.{SpeedConfig, update_speed}
use go_hauk.Frontend.Staleness.{StaleConfig, mark_shares}
use go_hauk.Frontend.Shares.{View, auto_center}

module _ (F : Float) where
  open F use {Num, fixed1}

  pub record Config : Type 0 where
    pub speed : SpeedConfig F
    pub stale : StaleConfig F
    pub max_points : ℕ
    pub default_zoom : ℕ
    -- Leaflet's `fitBounds`, and `Math.random` as a text, which the script cannot foresee.
    pub fit : List (Place F) → Option ℕ
    pub random_id : ℕ → Text

  -- What `processUpdate` works on: `shares`, `hasReceivedFirst`, `hasInitiated`, the map, whether the
  -- map is shown (`mapouter`), and how many random ids were made.
  pub record Page : Type 0 where
    pub shares : Dict (Share F)
    pub has_first : Bool
    pub has_initiated : Bool
    pub view : View F
    pub map_shown : Bool
    pub ids : ℕ

  -- `data.points` by its type: of one user (`users[""]`), or by user name, where the server sends `null`
  -- for a user without points to send.
  pub data Points : Type 0 where
    alone : List (Row F) → Points
    group : Dict (Option (List (Row F))) → Points

  abbrev pub is_multi : Points → Bool
  is_multi (alone rows) = false
  is_multi (group users) = true

  abbrev pub users_of : Points → Dict (Option (List (Row F)))
  users_of (alone rows) = (codes "", some rows) ∷ []
  users_of (group users) = users

  -- "Flag that the first location has been received".
  abbrev is_there : Option (Point F) → Bool
  is_there none = false
  is_there (some p) = true

  abbrev is_user : Following → Text → Bool
  is_user nobody id = false
  is_user only_user id = false
  is_user (user u) id = text_eq u id

  abbrev is_anybody : Following → Bool
  is_anybody nobody = false
  is_anybody only_user = true
  is_anybody (user u) = true

  -- "Move the marker if needed."
  abbrev pub pan_view : Bool → Text → Option (Point F) → View F → View F
  pan_view multi id none v = v
  pan_view multi id (some p) v =
      if (if multi then is_user v.following id else is_anybody v.following)
      then record v { pan = some p.place }
      else v

  -- The class of the arrow of a user who moves at a speed.
  abbrev arrow_text : Num → State → Text
  arrow_text vel s =
      if text_eq (fixed1 vel) (codes "0.0")
      then codes "arrow still-" ++ state_name s
      else codes "arrow moving-" ++ state_name s

  -- The last two points.
  abbrev last_two : List (Point F) → Option (Point F × Point F)
  last_two [] = none
  last_two (p ∷ []) = none
  last_two (p ∷ q ∷ []) = some (p, q)
  last_two (p ∷ q ∷ r ∷ ps) = last_two (q ∷ r ∷ ps)

  abbrev turn_arrow : Num → State → Option (Point F × Point F) → Option (Face F) → Option (Face F)
  turn_arrow vel s pq none = none
  turn_arrow vel s none (some f) = some f
  turn_arrow vel s (some (p, q)) (some f) =
      some (record f { rotation = some (angle F p.place q.place); arrow = arrow_text vel s })

  -- "Add the user's nickname if this is a group share."
  abbrev name_face : Bool → Text → Option (Face F) → Option (Face F)
  name_face multi name none = none
  name_face multi name (some f) = some (if multi then record f { nickname = name } else f)

  -- "if (lastPoint !== null) shares[user].listEntry.style.display = 'block'"
  unfoldable pub list_share : Option (Point F) → Share F → Share F
  list_share last s = record s { listed = s.listed || is_there last }

  -- "Rotate the marker to the direction of movement."
  unfoldable pub turn_share : Num → Share F → Share F
  turn_share vel s = record s { face = turn_arrow vel s.state (last_two s.points) s.face }

  unfoldable pub name_share : Bool → Text → Share F → Share F
  name_share multi name s = record s { face = name_face multi name s.face }

  -- The body of the loop for a user whose entry is there: the entry afterwards and `lastPoint`.
  unfoldable pub update_share :
      Config → Bool → Text → List (Row F) → Share F → Share F × Option (Point F)
  update_share cfg multi name rows s =
      let r = receive F rows s in
      let v = update_speed F cfg.speed (list_share r.1 r.0, r.1) in
      (name_share multi name (prune F cfg.max_points (turn_share v.1 v.0)), r.1)

  -- The body of the loop with the entry at hand: `users[user].length` throws for `null`, which ends the
  -- function with the entry in `shares`.
  abbrev pub with_share :
      Config → Bool → Text → Option (List (Row F)) → ℕ → Page → Share F → Page × Bool
  with_share cfg multi name none ids page s =
      (record page { shares = insert name s page.shares; ids = ids }, true)
  with_share cfg multi name (some rows) ids page s =
      let (t, last) = update_share cfg multi name rows s in
      (
        record page {
          shares = insert name t page.shares;
          has_first = page.has_first || is_there last;
          view = pan_view multi t.id last page.view;
          ids = ids;
        },
        false,
      )

  abbrev pub pick :
      Config → Bool → Text → Option (List (Row F)) → Page → Option (Share F) → Page × Bool
  pick cfg multi name rows page none =
      with_share cfg multi name rows (suc page.ids) page (new_share F (cfg.random_id page.ids))
  pick cfg multi name rows page (some s) = with_share cfg multi name rows page.ids page s

  -- One round of the loop over the users of the answer.
  unfoldable pub update_user : Config → Bool → Text → Option (List (Row F)) → Page → Page × Bool
  update_user cfg multi name rows page = pick cfg multi name rows page (lookup name page.shares)

  -- What comes next, unless an exception was thrown.
  abbrev pub unless_thrown : (Page → Page × Bool) → Page × Bool → Page × Bool
  unless_thrown k (page, true) = (page, true)
  unless_thrown k (page, false) = k page

  unfoldable pub update_users : Config → Bool → Dict (Option (List (Row F))) → Page → Page × Bool
  update_users cfg multi [] page = (page, false)
  update_users cfg multi ((name, rows) ∷ us) page =
      unless_thrown (update_users cfg multi us) (update_user cfg multi name rows page)

  abbrev follow_alone : Bool → View F → View F
  follow_alone multi v = if multi then v else record v { following = only_user }

  abbrev pub centered : Bool → View F × Bool → Page → Page × Bool
  centered multi (v, true) page = (page, true)
  centered multi (v, false) page = (record page { view = follow_alone multi v }, false)

  -- "On first location update, center the map so it shows all participants."
  unfoldable pub center : Config → Bool → Page → Page × Bool
  center cfg multi page =
      if page.has_first && not page.has_initiated
      then centered multi (auto_center F cfg.fit cfg.default_zoom page.shares page.view)
          (record page { has_initiated = true; map_shown = true })
      else (page, false)

  abbrev pub finish : Config → Bool → Page → Option (Dict (Share F)) → Page × Bool
  finish cfg multi page none = (page, true)
  finish cfg multi page (some d) = center cfg multi (record page { shares = d })

  -- The whole of it: the flag says whether it threw, which ends the callback of the answer.
  unfoldable pub apply : Config → Num → Points → Page → Page × Bool
  apply cfg server_time points page =
      unless_thrown
        (λ p. finish cfg (is_multi points) p (mark_shares F cfg.stale server_time p.shares))
        (update_users cfg (is_multi points) (users_of points) page)
