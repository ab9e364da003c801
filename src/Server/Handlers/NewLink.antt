-- ===== src/Server/Handlers/NewLink.antt =====
-- `handleNewLink` of api/newlink.go: another share for a session.
use go_hauk.Prelude.{codes, text_eq, ℕ, not, Option, [], ◌∷◌}
use go_hauk.Frontend.Number.{Float}
use go_hauk.Frontend.Link.{view_link}
use go_hauk.Server.Action.{Action, ◌>>=◌, ◌>>◌, pure, gets, modify, reply_if, or_reply}
use go_hauk.Server.Session.{add_target}
use go_hauk.Server.Shares.{new_solo}
use go_hauk.Server.Db.{
  Response, Db, say, bad_request, internal_error, load_session, save_session, save_solo, make_link,
}
use go_hauk.Server.Handlers.{Env, Form, form_value, is_empty}

module _ (F : Float) (env : Env F) where
  unfoldable pub handle_new_link : ℕ → Option Form → Action (Db F) Response Response
  handle_new_link now form = do
    f ← or_reply form bad_request
    let sid = form_value (codes "sid") f
    reply_if (is_empty sid) (say (codes "Missing data!"))
    found ← gets (load_session F now env.max_cached_pts sid)
    s ← or_reply found (say (codes "Session expired!"))
    made ← make_link F now env.link_style
    id ← or_reply made internal_error
    let share = record (new_solo id) {
      adoptable = text_eq (form_value (codes "ado") f) (codes "1");
      host = s.id;
      expire = s.expire;
    }
    modify (save_solo F share)
    saved ← save_session F (add_target F id s)
    reply_if (not saved) internal_error
    pure (record { status = 200; lines = codes "OK" ∷ view_link env.public_url id ∷ id ∷ [] })
