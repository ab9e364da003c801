-- ===== src/Server/Api/Isolation.antt =====
-- What is stored for a session is changed only by requests that name it.
use go_hauk.Prelude.{
  Bool-cases, Text, text_eq, text_eq_iff, ℕ, ◌≡◌, refl, ◌∙◌, ◌≢◌, inl, inr, false,
}
use go_hauk.Frontend.Number.{Float}
use go_hauk.Server.Session.{Session, add_point, add_target, remove_target}
use go_hauk.Server.Db.{Db, session_value, session_key, unix}
use go_hauk.Server.Db.Keys.{
  holds, text_eq-session_key, holds-db_put, save_solo-other, delete_solo-other, load_session-id,
  delete_session-other, save_group-other, delete_group-other,
}
use go_hauk.Server.Db.Rules.{put_session}
use go_hauk.Server.Handlers.{Env}
use go_hauk.Server.Api.{Request, serve}
use go_hauk.Server.Api.Steps.{
  Step, take_random, start_session, change_session, end_session, add_solo, end_solo, add_group,
  host_joins, host_leaves, end_group, Next, new_point, new_target, old_target, invariant_lem,
}
use go_hauk.Server.Api.Handled.{session_of, serve-Steps}

module _ (F : Float) (env : Env F) where
  Next-id : (s t : Session F) → Next F env.max_cached_pts s t → t.id ≡ s.id
  unfolding add_point add_target remove_target
  Next-id s _ (new_point p) = refl
  Next-id s _ (new_target id) = refl
  Next-id s _ (old_target id) = refl

  put_session-other :
      (who sid : Text) (s : Session F) (db : Db F)
      → text_eq who sid ≡ false
      → s.id ≡ who
      → holds F (session_key sid) (put_session F s db) ≡ holds F (session_key sid) db
  put_session-other who sid s db e i =
      rw
        (
          holds-db_put F (session_key s.id) (session_key sid) (session_value s) (unix s.expire) db,
          text_eq-session_key,
          i,
          e,
        )
        refl

  -- No write for one session touches what is stored for another.
  Step-other :
      (now : ℕ) (who sid : Text) (d e : Db F)
      → text_eq who sid ≡ false
      → Step F env.max_cached_pts now who d e
      → holds F (session_key sid) e ≡ holds F (session_key sid) d
  unfolding text_eq
  Step-other now who sid d _ n (take_random bs) = refl
  Step-other now who sid d _ n (start_session s i fresh) = put_session-other who sid s d n i
  Step-other now who sid d _ n (change_session s t l next) =
      put_session-other who sid t d n
        (Next-id s t next ∙ (load_session-id F now env.max_cached_pts who s d l).0)
  Step-other now who sid d _ n end_session = delete_session-other F who (session_key sid) d n
  Step-other now who sid d _ n (add_solo x free) = save_solo-other F x (session_key sid) d refl
  Step-other now who sid d _ n (end_solo id x l) = delete_solo-other F id (session_key sid) d refl
  Step-other now who sid d _ n (add_group g free) =
      save_group-other F g (session_key sid) d refl refl
  Step-other now who sid d _ n (host_joins pin g h l same) =
      save_group-other F h (session_key sid) d refl refl
  Step-other now who sid d _ n (host_leaves id g h l same) =
      save_group-other F h (session_key sid) d refl refl
  Step-other now who sid d _ n (end_group id g h l same) =
      delete_group-other F h (session_key sid) d refl refl

  -- A request does not change what is stored for a session unless its form names the session, or it is
  -- one for a new share and its random bytes make the id of the session.
  pub serve-isolated :
      (now : ℕ) (r : Request) (sid : Text) (db : Db F)
      → session_of F env r db ≢ sid
      → holds F (session_key sid) (serve F env now r db).1 ≡ holds F (session_key sid) db
  serve-isolated now r sid db n =
      invariant_lem F env.max_cached_pts now _
        (λ d. holds F (session_key sid) d ≡ holds F (session_key sid) db)
        (λ d e w k. Step-other now _ sid d e other w ∙ k) db _ (serve-Steps F env now r db) refl
    where
      other : text_eq (session_of F env r db) sid ≡ false
      other = elim (Bool-cases (text_eq (session_of F env r db) sid)) [
        | inl same ↦ absurd (n ((text_eq_iff _ sid).0 same))
        | inr e ↦ e
      ]
