-- ===== src/Server/Fetch.antt =====
-- `handleFetch` of api/fetch.go, with `GetAllPoints` and `GetAutoInterval` of model/share.go. What the
-- store holds is a parameter: the share of an id, and the session of a session id, where it has one
-- that has not expired. `parse_float` is `strconv.ParseFloat`, whose error is ignored.
pub mod Solo
pub mod Group
mod Tests
use go_hauk.Prelude.{
  if◌then◌else◌, Text, text_eq, Dict, ℕ, Bool, ◌||◌, Option, none, some, List, [], ◌∷◌,
}
use go_hauk.Frontend.Number.{Float}
use go_hauk.Server.Session.{Cell, Session, get_points}
use go_hauk.Server.Shares.{SoloShare, GroupShare, Stored, solo_share, group_share}

module _ (F : Float) where
  pub record SoloResponse : Type 0 where
    pub expire : ℕ
    pub server_time : F.Num
    pub interval : F.Num
    pub points : List (List (Cell F))
    pub encrypted : Bool
    pub salt : Text

  pub record GroupResponse : Type 0 where
    pub expire : ℕ
    pub server_time : F.Num
    pub interval : F.Num
    pub points : Dict (Option (List (List (Cell F))))

  -- "Invalid session!" with status 200 and with 404, and the answers in JSON.
  pub data Response : Type 0 where
    invalid not_found : Response
    solo_response : SoloResponse → Response
    group_response : GroupResponse → Response

  module _ (load_session : Text → Option (Session F)) where
    -- One host of `GetAllPoints`: without a session it is left out.
    abbrev pub host_points :
        F.Num
        → Text
        → Option (Session F)
        → Dict (Option (List (List (Cell F))))
        → Dict (Option (List (List (Cell F))))
    host_points since nick none points = points
    host_points since nick (some s) points = (nick, get_points F since s) ∷ points

    -- `GetAllPoints`
    unfoldable pub all_points : F.Num → Dict Text → Dict (Option (List (List (Cell F))))
    all_points since [] = []
    all_points since ((nick, sid) ∷ hosts) =
        host_points since nick (load_session sid) (all_points since hosts)

    abbrev least : F.Num → Option (Session F) → F.Num
    least min none = min
    least min (some s) = if F.eq min (F.of_ℕ 0) || F.lt s.interval min then s.interval else min

    -- The loop of `GetAutoInterval`, over `min`.
    unfoldable pub auto_interval : F.Num → Dict Text → F.Num
    auto_interval min [] = min
    auto_interval min ((nick, sid) ∷ hosts) = auto_interval (least min (load_session sid)) hosts

    -- "if resp.Points == nil": an empty slice in its place.
    abbrev pub or_empty : Option (List (List (Cell F))) → List (List (Cell F))
    or_empty none = []
    or_empty (some ps) = ps

    abbrev pub fetch_solo : F.Num → F.Num → SoloShare → Option (Session F) → Response
    fetch_solo since now share none = not_found
    fetch_solo since now share (some s) = solo_response (record {
      expire = share.expire;
      server_time = now;
      interval = s.interval;
      points = or_empty (get_points F since s);
      encrypted = s.encrypted;
      salt = s.salt;
    })

    abbrev pub fetch_share : F.Num → F.Num → Option Stored → Response
    fetch_share since now none = not_found
    fetch_share since now (some (solo_share share)) =
        fetch_solo since now share (load_session share.host)
    fetch_share since now (some (group_share share)) = group_response (record {
      expire = share.expire;
      server_time = now;
      interval = auto_interval (F.of_ℕ 0) share.hosts;
      points = all_points since share.hosts;
    })

    module _ (load_share : Text → Option Stored) (parse_float : Text → F.Num) where
      -- The number of the parameter `since`, which may be missing.
      abbrev pub since_of : Text → F.Num
      since_of [] = F.of_ℕ 0
      since_of (c ∷ t) = parse_float (c ∷ t)

      -- `handleFetch` for the parameters `id` and `since` at the time `now`.
      unfoldable pub handle_fetch : Text → Text → F.Num → Response
      unfolding all_points auto_interval
      handle_fetch id since now =
          if text_eq id [] then invalid else fetch_share (since_of since) now (load_share id)
