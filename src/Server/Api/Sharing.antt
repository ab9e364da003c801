-- ===== src/Server/Api/Sharing.antt =====
-- A request is seen in what is loaded after it: a point that was sent, and a share that was begun.
use go_hauk.Prelude.{
  ltb, Text, codes, text_eq_iff, ℕ, ◌≤◌, ◌≡◌, refl, sym, ap, subst, ◌∙◌, ◌⊎◌, inl, inr, true, false,
  some, List, arith,
}
use go_hauk.Frontend.Number.{Float}
use go_hauk.Server.Store.{get}
use go_hauk.Server.Session.{Cell, Session, add_point}
use go_hauk.Server.Db.{Db, Value, session_value, session_key, unix, load_session}
use go_hauk.Server.Db.Keys.{load_session-id}
use go_hauk.Server.Db.Rules.{put_session}
use go_hauk.Server.Handlers.{Env}
use go_hauk.Server.Action.{done, Ends}
use go_hauk.Server.Action.Rules.{
  gets-Ends, reply_if-Ends, or_reply-Ends, given-Ends, of_outcome-Ends, pure-Ends, tested-Ends,
}
use go_hauk.Server.Store.Laws.{lookup-put}
use go_hauk.Server.Session.{has_expired}
use go_hauk.Server.Db.{Response, say, db_put, db_get, to_unix}
use go_hauk.Server.Db.Rules.{saved-Ends}
use go_hauk.Server.Handlers.{Form, form_value}
use go_hauk.Server.Handlers.Post.{handle_post, make_point, post_lines}

pub ltb-late : (t now : ℕ) → now ≤ t → ltb t now ≡ false
ltb-late t now h = ground (arith)

module _ (F : Float) (env : Env F) where
  -- What was stored until a time is found up to it.
  get-put :
      (now : ℕ) (key : Text) (v : Value F) (t : ℕ) (d : Db F)
      → now ≤ t
      → db_get F now key (db_put F key v t d) ≡ some v
  unfolding get
  get-put now key v t d h =
      rw (lookup-put key key v t d.memory, (text_eq_iff key key).1 refl, ltb-late t now h) refl

  load_session-put :
      (now max_pts : ℕ) (s : Session F) (d : Db F)
      → now ≤ unix s.expire
      → load_session F now max_pts s.id (put_session F s d) ≡ some (record s { max_pts = max_pts })
  unfolding load_session
  load_session-put now max_pts s d h =
      rw (get-put now (session_key s.id) (session_value s) (unix s.expire) d h) refl

  -- The same for a session that `who` names, with its limit.
  pub load_session-put_named :
      (now max_pts : ℕ) (who : Text) (s : Session F) (d : Db F)
      → s.id ≡ who
      → s.max_pts ≡ max_pts
      → now ≤ unix s.expire
      → load_session F now max_pts who (put_session F s d) ≡ some s
  load_session-put_named now max_pts who s d i m h =
      subst (λ z. load_session F now max_pts z (put_session F s d) ≡ some s) i
        (load_session-put now max_pts s d h ∙ ap (λ n. some (record s { max_pts = n })) (sym m))

  -- Nothing has changed, or the session is at its end, and the phone is told so.
  abbrev pub NotPosted : ℕ → Form → Db F → Response → Db F → Type 0
  NotPosted now f db x d =
      (d ≡ db)
      ⊎ ((s : Session F) × (load_session F now env.max_cached_pts (form_value (codes "sid") f) db
            ≡ some s)
          × (has_expired F (to_unix now) s ≡ true)
          × (x ≡ say (codes "Session expired!")))

  -- The answer, and what is loaded from then on until the end of the session.
  abbrev pub Posted : ℕ → Form → Db F → Response → Db F → Type 0
  Posted now f db r d =
      (s : Session F) × (p : List (Cell F)) × (load_session F now env.max_cached_pts
          (form_value (codes "sid") f) db
        ≡ some s)
      × (make_point F env f s ≡ done p)
      × (r ≡ post_lines F env (add_point F p s))
      × ((later : ℕ)
          → later ≤ unix s.expire
          → load_session F later env.max_cached_pts (form_value (codes "sid") f) d
            ≡ some (add_point F p s))

  -- A post changes nothing, or is told that its session has just expired, or is answered with OK and the
  -- targets of the session; then, until the session expires, it is loaded with the new point added.
  pub handle_post-Posted :
      (now : ℕ) (f : Form) (db : Db F)
      → Ends (NotPosted now f db) (Posted now f db) (handle_post F env now (some f) db)
  unfolding handle_post add_point has_expired
  handle_post-Posted now f db = given-Ends _ _ _ _ (
      reply_if-Ends _ _ _ _ (inl refl) λ _. gets-Ends _ _ _ (
        or_reply-Ends _ _ _ _ (inl refl) λ s l.
          let (named, limit) = load_session-id F now _ _ s db l in
          of_outcome-Ends _ _ _ (λ _ _. inl refl)
            λ p made. saved-Ends F _ _ _ (inl refl) λ _.
              tested-Ends _ _ _ _ (λ late. inr (s, l, late, refl))
                λ _. pure-Ends _ _ (
                  s,
                  p,
                  l,
                  made,
                  refl,
                  λ later h.
                      load_session-put_named later env.max_cached_pts _ (add_point F p s) db named
                        limit h,
                )))
