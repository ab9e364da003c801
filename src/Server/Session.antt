-- ===== src/Server/Session.antt =====
-- A session of model/session.go: the positions that a phone has sent. Numbers are float64, and the
-- cells of a point are as they come back from the store, which holds them as JSON.
pub mod Window
pub mod Since
mod Tests
use go_hauk.Prelude.{
  ltb, leb, if◌then◌else◌, length, drop, Text, text_eq, ℕ, ◌-◌, Bool, false, Option, none, some,
  List, [], ◌∷◌, ◌++◌,
}
use go_hauk.Frontend.Number.{Float, le}

module _ (F : Float) where
  -- An element of `[]any`.
  pub data Cell : Type 0 where
    null : Cell
    num : F.Num → Cell
    str : Text → Cell

  -- `Session` with its `SessionData`; times are Unix seconds.
  pub record Session : Type 0 where
    pub id : Text
    pub expire : ℕ
    pub interval : F.Num
    pub targets : List Text
    pub points : List (List Cell)
    pub encrypted : Bool
    pub salt : Text
    pub max_pts : ℕ

  -- `NewSession`, for the id that `generateSessionID` made.
  abbrev pub new_session : Text → ℕ → Session
  new_session id max_pts = record {
    id = id;
    expire = 0;
    interval = F.of_ℕ 0;
    targets = [];
    points = [];
    encrypted = false;
    salt = [];
    max_pts = max_pts;
  }

  -- `HasExpired`
  unfoldable pub has_expired : ℕ → Session → Bool
  has_expired now s = leb s.expire now

  -- `SetExpire`, `SetInterval` and `SetEncrypted`
  unfoldable pub set_expire : ℕ → Session → Session
  set_expire t s = record s { expire = t }

  unfoldable pub set_interval : F.Num → Session → Session
  set_interval i s = record s { interval = i }

  unfoldable pub set_encrypted : Bool → Text → Session → Session
  set_encrypted e salt s = record s { encrypted = e; salt = salt }

  unfoldable pub add_target : Text → Session → Session
  add_target share_id s = record s { targets = s.targets ++ share_id ∷ [] }

  -- The loop of `RemoveTarget`, which ends at the first match.
  abbrev pub without_target : Text → List Text → List Text
  without_target share_id [] = []
  without_target share_id (t ∷ ts) =
      if text_eq t share_id then ts else t ∷ without_target share_id ts

  unfoldable pub remove_target : Text → Session → Session
  remove_target share_id s = record s { targets = without_target share_id s.targets }

  unfoldable pub add_point : List Cell → Session → Session
  add_point p s =
      let points = s.points ++ p ∷ [] in
      record s {
        points =
            if ltb s.max_pts (length points)
            then drop (length points - s.max_pts) points
            else points;
      }

  -- A phone sends points one after another.
  unfoldable pub add_points : List (List Cell) → Session → Session
  unfolding add_point
  add_points [] s = s
  add_points (p ∷ ps) s = add_points ps (add_point p s)

  -- `p[2].(float64)` where there is such an element.
  abbrev pub time_of : List Cell → Option F.Num
  time_of (a ∷ b ∷ num t ∷ cs) = some t
  time_of _ = none

  -- Slices that may be nil.
  abbrev pub append_to : Option (List (List Cell)) → List Cell → Option (List (List Cell))
  append_to none p = some (p ∷ [])
  append_to (some ps) p = some (ps ++ p ∷ [])

  abbrev pub is_after : F.Num → Option F.Num → Bool
  is_after since none = false
  is_after since (some t) = F.lt since t

  -- The loop of `GetPoints`, over `pts`.
  unfoldable pub scan_points :
      F.Num → List (List Cell) → Option (List (List Cell)) → Option (List (List Cell))
  scan_points since [] pts = pts
  scan_points since (p ∷ ps) pts =
      scan_points since ps (if is_after since (time_of p) then append_to pts p else pts)

  -- `GetPoints`; `none` is nil.
  unfoldable pub get_points : F.Num → Session → Option (List (List Cell))
  unfolding scan_points
  get_points since s =
      if le F since (F.of_ℕ 0)
      then some s.points
      else if s.encrypted
      then some s.points
      else scan_points since s.points none
