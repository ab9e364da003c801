-- ===== src/Server/Handlers/Create/Rules.antt =====
-- The rule for the end of `handleCreate`, and the session that it begins.
use go_hauk.Prelude.{if◌then◌else◌, Text, ℕ, ◌≡◌, true, [], arith}
use go_hauk.Frontend.Number.{Float}
use go_hauk.Server.Action.{Action, ◌>>◌, reply_if, Ends, ends, replies}
use go_hauk.Server.Action.Rules.{then-Ends}
use go_hauk.Server.Session.{Session, add_target, set_expire, set_interval, set_encrypted}
use go_hauk.Server.Db.{Response, Db, internal_error, session_marshals}
use go_hauk.Server.Db.Rules.{put_session, save_session-Ends}
use go_hauk.Server.Handlers.{Env}
use go_hauk.Server.Handlers.Create.{Params, keep_session, begin_session}

module _ (F : Float) (env : Env F) where
  -- The session is saved with its new target, or the handler ends with an error.
  pub keep_session-Ends :
      {B : Type 0} {E : Response → Db F → Type 0} {Q : B → Db F → Type 0} (id : Text)
      (s : Session F) (k : Action (Db F) Response B) (db : Db F)
      → E internal_error db
      → (session_marshals F (add_target F id s) ≡ true
          → Ends E Q (k (put_session F (add_target F id s) db)))
      → Ends E Q ((keep_session F env id s >> k) db)
  unfolding keep_session reply_if
  keep_session-Ends id s k db e h = then-Ends _ _ _ (
      save_session-Ends F (add_target F id s) _ db (λ m. ends tt _ (h m))
        (λ _. replies internal_error db e))

  pub begin_session-id :
      (expire : ℕ) (p : Params F) (id : Text) → (begin_session F env expire p id).id ≡ id
  unfolding begin_session set_expire set_interval set_encrypted
  begin_session-id expire p id = ground (arith)

  pub begin_session-points :
      (expire : ℕ) (p : Params F) (id : Text) → (begin_session F env expire p id).points ≡ []
  unfolding begin_session set_expire set_interval set_encrypted
  begin_session-points expire p id = ground (arith)

  pub begin_session-expire :
      (expire : ℕ) (p : Params F) (id : Text) → (begin_session F env expire p id).expire ≡ expire
  unfolding begin_session set_expire set_interval set_encrypted
  begin_session-expire expire p id = ground (arith)

  pub begin_session-interval :
      (expire : ℕ) (p : Params F) (id : Text)
      → (begin_session F env expire p id).interval ≡ p.interval
  unfolding begin_session set_expire set_interval set_encrypted
  begin_session-interval expire p id = ground (arith)

  pub begin_session-encrypted :
      (expire : ℕ) (p : Params F) (id : Text)
      → (begin_session F env expire p id).encrypted ≡ p.encrypted
  unfolding begin_session set_expire set_interval set_encrypted
  begin_session-encrypted expire p id = ground (arith)

  -- A session in the clear has no salt.
  pub begin_session-salt :
      (expire : ℕ) (p : Params F) (id : Text)
      → (begin_session F env expire p id).salt ≡ (if p.encrypted then p.salt else [])
  unfolding begin_session set_expire set_interval set_encrypted
  begin_session-salt expire p id = ground (arith)

  pub begin_session-max_pts :
      (expire : ℕ) (p : Params F) (id : Text)
      → (begin_session F env expire p id).max_pts ≡ env.max_cached_pts
  unfolding begin_session set_expire set_interval set_encrypted
  begin_session-max_pts expire p id = ground (arith)
