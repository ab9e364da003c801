-- ===== src/Server/Handlers/Stop.antt =====
-- `handleStop` of api/stop.go: a phone ends one of its shares, or all of them and its session.
use go_hauk.Prelude.{
  if◌then◌else◌, Text, codes, text_eq, ℕ, Bool, false, not, ◌||◌, Option, none, some, List, [], ◌∷◌,
}
use go_hauk.Frontend.Number.{Float}
use go_hauk.Server.Action.{Action, ◌>>=◌, ◌>>◌, pure, gets, modify, reply_if, or_reply}
use go_hauk.Server.Session.{Session, remove_target}
use go_hauk.Server.Shares.{GroupShare, Stored, solo_share, group_share, remove_host}
use go_hauk.Server.Db.{
  Response, Db, say, bad_request, load_session, load_share, save_session, delete_session,
  delete_solo, save_group, delete_group,
}
use go_hauk.Server.Handlers.{Env, Form, form_value, is_empty}

-- The loop that sets `found`.
unfoldable pub has_target : Text → List Text → Bool
has_target id [] = false
has_target id (t ∷ ts) = text_eq t id || has_target id ts

module _ (F : Float) where
  abbrev pub leave : GroupShare → Db F → Db F
  leave g db = if is_empty g.hosts then delete_group F g db else save_group F g db

  abbrev pub end_stored : Text → Text → Option Stored → Db F → Db F
  end_stored sid id none db = db
  end_stored sid id (some (solo_share s)) db = delete_solo F id db
  end_stored sid id (some (group_share g)) db = leave (remove_host sid g) db

  -- What is done with one share of the session: it is deleted, or its group is left.
  unfoldable pub end_share_of : ℕ → Text → Text → Db F → Db F
  unfolding delete_solo delete_group save_group remove_host load_share
  end_share_of now sid id db = end_stored sid id (load_share F now id db) db

  unfoldable pub end_shares : ℕ → Text → List Text → Db F → Db F
  unfolding end_share_of
  end_shares now sid [] db = db
  end_shares now sid (t ∷ ts) db = end_shares now sid ts (end_share_of now sid t db)

  -- The rest of the handler with one link, and without.
  unfoldable pub stop_link : ℕ → Text → Text → Session F → Action (Db F) Response Response
  stop_link now sid lid s = do
    reply_if (not (has_target lid s.targets)) (say (codes "OK"))
    modify (end_share_of now sid lid)
    save_session F (remove_target F lid s)
    pure (say (codes "OK"))

  unfoldable pub stop_all : ℕ → Text → Session F → Action (Db F) Response Response
  stop_all now sid s = do
    modify (end_shares now sid s.targets)
    modify (delete_session F sid)
    pure (say (codes "OK"))

  unfoldable pub handle_stop : Env F → ℕ → Option Form → Action (Db F) Response Response
  handle_stop env now form = do
    f ← or_reply form bad_request
    let sid = form_value (codes "sid") f
    reply_if (is_empty sid) (say (codes "OK"))
    found ← gets (load_session F now env.max_cached_pts sid)
    s ← or_reply found (say (codes "OK"))
    (if is_empty (form_value (codes "lid") f)
        then stop_all now sid s
        else stop_link now sid (form_value (codes "lid") f) s)
