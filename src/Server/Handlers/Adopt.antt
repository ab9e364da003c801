-- ===== src/Server/Handlers/Adopt.antt =====
-- `handleAdopt` of api/adopt.go: a share of one user joins a group.
use go_hauk.Prelude.{codes, text_eq, ℕ, not, ◌||◌, Option, none, some}
use go_hauk.Frontend.Number.{Float}
use go_hauk.Server.Action.{
  Action, Outcome, done, reply, ◌>>=◌, ◌>>◌, pure, gets, modify, reply_if, or_reply, of_outcome,
}
use go_hauk.Server.Session.{add_target}
use go_hauk.Server.Shares.{SoloShare, Stored, solo_share, group_share, add_host}
use go_hauk.Server.Db.{
  Response, Db, say, bad_request, internal_error, load_session, load_share, load_by_pin,
  save_session, save_group,
}
use go_hauk.Server.Handlers.{Env, Form, form_value, is_empty, atoi, itoa}

-- The share of one user, or the reply that it is none.
abbrev pub only_solo : Option Stored → Outcome Response SoloShare
only_solo none = reply (say (codes "Share not found!"))
only_solo (some (group_share g)) = reply (say (codes "Group shares cannot be adopted!"))
only_solo (some (solo_share s)) = done s

module _ (F : Float) (env : Env F) where
  unfoldable pub handle_adopt : ℕ → Option Form → Action (Db F) Response Response
  handle_adopt now form = do
    f ← or_reply form bad_request
    let sid = form_value (codes "sid") f
    let nickname = form_value (codes "nic") f
    let aid = form_value (codes "aid") f
    let pin = form_value (codes "pin") f
    reply_if (is_empty sid || is_empty nickname || is_empty aid || is_empty pin)
        (say (codes "Missing data!"))
    found ← gets (load_session F now env.max_cached_pts sid)
    s ← or_reply found (say (codes "Session expired!"))
    stored ← gets (load_share F now aid)
    share ← of_outcome (only_solo stored)
    reply_if (not share.adoptable) (say (codes "Share adoption not allowed!"))
    reply_if (not (text_eq sid share.host)) (say (codes "Not authorized!"))
    reply_if s.encrypted (say (codes "End-to-end encrypted shares cannot be adopted!"))
    pinned ← gets (load_by_pin F now (itoa (atoi pin).0))
    target ← or_reply pinned (say (codes "Session expired!"))
    modify (save_group F (add_host nickname share.host target))
    saved ← save_session F (add_target F target.id s)
    reply_if (not saved) internal_error
    pure (say (codes "OK"))
