-- ===== src/Server/Api/Handled.antt =====
-- Every request changes the store by the writes of Steps.antt only.
use go_hauk.Prelude.{Text, codes, text_eq, ℕ, ◌≤◌, refl, ◌∙◌, Option, none, some}
use go_hauk.Frontend.Number.{Float}
use go_hauk.Server.Action.Rules.{
  gets-Ends, modify-Ends, reply_if-Ends, or_reply-Ends, missing-Ends, given-Ends, of_outcome-Ends,
  pure-Ends, Ends-state,
}
use go_hauk.Server.Shares.{add_host}
use go_hauk.Server.Linkgen.{read}
use go_hauk.Server.Db.{Db, session_key}
use go_hauk.Server.Db.Keys.{save_solo-other, save_group-other}
use go_hauk.Server.Db.Rules.{saved-Ends, made_link-Ends, with_random}
use go_hauk.Server.Handlers.{Env, Form, form_value}
use go_hauk.Server.Handlers.Post.{handle_post}
use go_hauk.Server.Handlers.Adopt.{handle_adopt}
use go_hauk.Server.Handlers.NewLink.{handle_new_link}
use go_hauk.Server.Api.{Request, create, post, stop, adopt, new_link, serve, Serves, idle, serving}
use go_hauk.Server.Api.Steps.{
  Step, Steps, stay, ◌▸◌, take_random, change_session, add_solo, host_joins, new_point, new_target,
  load_session-same, Written, invariant_lem, sender,
}
use go_hauk.Server.Api.Free.{search_link-free}
use go_hauk.Server.Api.Begin.{add_host-SameGroup, handle_create-Steps, new_id}
use go_hauk.Server.Api.Ending.{handle_stop-Steps}

module _ (F : Float) (env : Env F) where
  handle_post-Steps :
      (now : ℕ) (form : Option Form) (db : Db F)
      → Written F env.max_cached_pts now (sender form) db (handle_post F env now form db)
  unfolding handle_post
  handle_post-Steps now none db = missing-Ends _ _ _ stay
  handle_post-Steps now (some f) db = given-Ends _ _ _ _ (
      reply_if-Ends _ _ _ _ stay λ _. gets-Ends _ _ _ (
        or_reply-Ends _ _ _ _ stay λ s l.
          of_outcome-Ends _ _ _ (λ _ _. stay)
            λ p _. saved-Ends F _ _ _ stay λ _.
              let kept = stay ▸ change_session s _ l (new_point p) in
              reply_if-Ends _ _ _ _ kept λ _. pure-Ends _ _ kept))

  handle_new_link-Steps :
      (now : ℕ) (form : Option Form) (db : Db F)
      → Written F env.max_cached_pts now (sender form) db (handle_new_link F env now form db)
  unfolding handle_new_link text_eq
  handle_new_link-Steps now none db = missing-Ends _ _ _ stay
  handle_new_link-Steps now (some f) db = given-Ends _ _ _ _ (
      reply_if-Ends _ _ _ _ stay λ _. gets-Ends _ _ _ (
        or_reply-Ends _ _ _ _ stay λ s l. made_link-Ends F _ _ _ _ stay λ id rest made.
          modify-Ends _ _ _ (
            let solo =
              stay ▸ take_random rest ▸ add_solo _ (search_link-free F env now _ db id rest made) in
            saved-Ends F _ _ _ solo λ _. pure-Ends _ _ (
              solo
              ▸ change_session s _
                  (load_session-same F env.max_cached_pts now _ db _ (
                      save_solo-other F _ (session_key (form_value (codes "sid") f))
                        (with_random F rest db) refl)
                    ∙ l)
                  (new_target id)))))

  handle_adopt-Steps :
      (now : ℕ) (form : Option Form) (db : Db F)
      → Written F env.max_cached_pts now (sender form) db (handle_adopt F env now form db)
  unfolding handle_adopt text_eq
  handle_adopt-Steps now none db = missing-Ends _ _ _ stay
  handle_adopt-Steps now (some f) db = given-Ends _ _ _ _ (
      reply_if-Ends _ _ _ _ stay λ _. gets-Ends _ _ _ (
        or_reply-Ends _ _ _ _ stay λ s l. gets-Ends _ _ _ (
          of_outcome-Ends _ _ _ (λ _ _. stay)
            λ x _. reply_if-Ends _ _ _ _ stay λ _. reply_if-Ends _ _ _ _ stay λ _.
              reply_if-Ends _ _ _ _ stay λ _. gets-Ends _ _ _ (
                or_reply-Ends _ _ _ _ stay λ g found. modify-Ends _ _ _ (
                  let group =
                    stay
                    ▸ host_joins _ g _ found
                        (add_host-SameGroup F env (form_value (codes "nic") f) x.host g) in
                  saved-Ends F _ _ _ group λ _. pure-Ends _ _ (
                    group
                    ▸ change_session s _
                        (load_session-same F env.max_cached_pts now _ db _ (
                            save_group-other F (add_host (form_value (codes "nic") f) x.host g)
                              (session_key (form_value (codes "sid") f)) db refl refl)
                          ∙ l)
                        (new_target g.id)))))))

  -- The session for which a request writes: the one that its form names, or the one that it begins.
  unfoldable pub session_of : Request → Db F → Text
  session_of (create form) db = new_id (read 32 db.random)
  session_of (post form) db = sender form
  session_of (stop form) db = sender form
  session_of (adopt form) db = sender form
  session_of (new_link form) db = sender form

  -- However a request ends, it has changed the store by a sequence of these writes, each of which is
  -- allowed where it is made.
  pub serve-Steps :
      (now : ℕ) (r : Request) (db : Db F)
      → Steps F env.max_cached_pts now (session_of r db) db (serve F env now r db).1
  unfolding serve session_of
  serve-Steps now (create f) db = Ends-state (handle_create-Steps F env now f db)
  serve-Steps now (post f) db = Ends-state (handle_post-Steps now f db)
  serve-Steps now (stop f) db = Ends-state (handle_stop-Steps F env now f db)
  serve-Steps now (adopt f) db = Ends-state (handle_adopt-Steps now f db)
  serve-Steps now (new_link f) db = Ends-state (handle_new_link-Steps now f db)

  -- What every write keeps, and what does not depend on earlier times, holds in every state that is
  -- reached.
  pub Serves-invariant :
      (I : ℕ → Db F → Type 0)
      → ((t u : ℕ) (d : Db F) → t ≤ u → I t d → I u d)
      → ((now : ℕ) (who : Text) (d e : Db F)
          → Step F env.max_cached_pts now who d e
          → I now d
          → I now e)
      → (now : ℕ) (db : Db F) (t : ℕ) (d : Db F) → Serves F env now db t d
      → I now db
      → I t d
  Serves-invariant I later step now db t d (idle u h) k = later now u db h k
  Serves-invariant I later step now db t d (serving u r s h) k =
      invariant_lem F env.max_cached_pts u _ (I u) (step u _) _ _ (serve-Steps u r _)
        (later _ u _ h (Serves-invariant I later step now db _ _ s k))
