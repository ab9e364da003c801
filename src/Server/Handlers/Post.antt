-- ===== src/Server/Handlers/Post.antt =====
-- `handlePost` of api/post.go: a phone sends a position.
use go_hauk.Prelude.{
  if◌then◌else◌, Text, codes, text_eq, ℕ, Bool, not, ◌||◌, Option, List, [], ◌∷◌, ◌++◌,
}
use go_hauk.Frontend.Number.{Float}
use go_hauk.Server.Action.{
  Action, Outcome, done, reply, ◌>>=◌, ◌>>◌, pure, gets, reply_if, or_reply, of_outcome,
}
use go_hauk.Server.Session.{Cell, null, num, str, Session, add_point, has_expired}
use go_hauk.Server.Db.{
  Response, Db, say, bad_request, internal_error, to_unix, load_session, save_session,
}
use go_hauk.Server.Handlers.{Env, Form, form_value, is_empty}

-- `strings.Join` of the targets.
unfoldable pub join_comma : List Text → Text
join_comma [] = []
join_comma (t ∷ []) = t
join_comma (t ∷ u ∷ ts) = t ++ b',' ∷ join_comma (u ∷ ts)

module _ (F : Float) (env : Env F) where
  -- A number that may be missing; the error of `ParseFloat` is ignored.
  abbrev optional_num : Text → Cell F
  optional_num [] = null
  optional_num (c ∷ t) = num (env.parse_float (c ∷ t)).0

  -- A text that may be missing.
  abbrev optional_str : Text → Cell F
  optional_str [] = null
  optional_str (c ∷ t) = str (c ∷ t)

  -- `x < -limit || x > limit`
  abbrev pub is_beyond : ℕ → F.Num → Bool
  is_beyond limit x = F.lt x (F.sub (F.of_ℕ 0) (F.of_ℕ limit)) || F.lt (F.of_ℕ limit) x

  -- The point of a session in the clear.
  unfoldable pub plain_point : Form → Outcome Response (List (Cell F))
  unfolding form_value
  plain_point f =
      let lat = env.parse_float (form_value (codes "lat") f) in
      let lon = env.parse_float (form_value (codes "lon") f) in
      let time = env.parse_float (form_value (codes "time") f) in
      if not lat.1 || not lon.1 || not time.1 || is_beyond 90 lat.0 || is_beyond 180 lon.0
      then reply (say (codes "Invalid location!"))
      else done (
          num lat.0
          ∷ num lon.0
          ∷ num time.0
          ∷ num (if text_eq (form_value (codes "prv") f) (codes "1") then F.of_ℕ 1 else F.of_ℕ 0)
          ∷ optional_num (form_value (codes "acc") f)
          ∷ optional_num (form_value (codes "spd") f)
          ∷ [])

  -- The point of an encrypted session, with its vector first.
  unfoldable pub sealed_point : Form → Outcome Response (List (Cell F))
  unfolding form_value
  sealed_point f =
      if is_empty (form_value (codes "iv") f)
      then reply (say (codes "Missing data!"))
      else done (
          str (form_value (codes "iv") f)
          ∷ str (form_value (codes "lat") f)
          ∷ str (form_value (codes "lon") f)
          ∷ str (form_value (codes "time") f)
          ∷ optional_str (form_value (codes "prv") f)
          ∷ optional_str (form_value (codes "acc") f)
          ∷ optional_str (form_value (codes "spd") f)
          ∷ [])

  unfoldable pub make_point : Form → Session F → Outcome Response (List (Cell F))
  unfolding plain_point sealed_point
  make_point f s = if s.encrypted then sealed_point f else plain_point f

  abbrev pub post_lines : Session F → Response
  post_lines s = record {
    status = 200;
    lines = codes "OK" ∷ (env.public_url ++ codes "?%s") ∷ join_comma s.targets ∷ [];
  }

  -- The handler for a form, at the time `now`.
  unfoldable pub handle_post : ℕ → Option Form → Action (Db F) Response Response
  handle_post now form = do
    f ← or_reply form bad_request
    let sid = form_value (codes "sid") f
    reply_if
        (is_empty sid
          || is_empty (form_value (codes "lat") f)
          || is_empty (form_value (codes "lon") f)
          || is_empty (form_value (codes "time") f))
        (say (codes "Missing data!"))
    found ← gets (load_session F now env.max_cached_pts sid)
    s ← or_reply found (say (codes "Session expired!"))
    p ← of_outcome (make_point f s)
    let t = add_point F p s
    saved ← save_session F t
    reply_if (not saved) internal_error
    reply_if (has_expired F (to_unix now) t) (say (codes "Session expired!"))
    pure (post_lines t)
