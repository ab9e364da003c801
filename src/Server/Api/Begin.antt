-- ===== src/Server/Api/Begin.antt =====
-- The writes of `handleCreate` of api/create.go.
use go_hauk.Prelude.{Text, ℕ, ◌≡◌, refl, sym, ap, ◌∙◌, Option, none, some, List, []}
use go_hauk.Frontend.Number.{Float}
use go_hauk.Server.Action.Rules.{
  gets-Ends, modify-Ends, or_reply-Ends, missing-Ends, given-Ends, pure-Ends, reads-Ends,
}
use go_hauk.Server.Session.{Session, add_target}
use go_hauk.Server.Shares.{GroupShare, add_host}
use go_hauk.Server.Linkgen.{read, hex_text}
use go_hauk.Server.Db.{Db}
use go_hauk.Server.Db.Rules.{made_link-Ends, read_random-Ends, any_random-Ends, with_random}
use go_hauk.Server.Handlers.{Env, Form}
use go_hauk.Server.Handlers.Create.{
  handle_create, begin_alone, begin_group, enter_group, Params, Mode, create_alone, create_group,
  join_group, other_mode, by_mode,
}
use go_hauk.Server.Handlers.Create.Checks.{Accepted, check_form-Accepted}
use go_hauk.Server.Handlers.Create.Rules.{keep_session-Ends, begin_session-id, begin_session-points}
use go_hauk.Server.Api.Steps.{
  Steps, stay, ◌▸◌, take_random, start_session, add_solo, add_group, host_joins, SameGroup, Written,
}
use go_hauk.Server.Api.Free.{search_link-free, choose_link-free}

-- The id that `generateSessionID` makes of the random bytes.
abbrev pub new_id : Option (List ℕ × List ℕ) → Text
new_id none = []
new_id (some (bs, rest)) = hex_text bs

module _ (F : Float) (env : Env F) where
  pub add_host-SameGroup :
      (nick who : Text) (g : GroupShare) → SameGroup F env.max_cached_pts g (add_host nick who g)
  unfolding SameGroup add_host
  add_host-SameGroup nick who g = (refl, refl, refl)

  begin_alone-Steps :
      (now expire : ℕ) (p : Params F) (who : Text) (s : Session F) (db d : Db F)
      → s.id ≡ who
      → s.points ≡ []
      → Steps F env.max_cached_pts now who db d
      → Written F env.max_cached_pts now who db (begin_alone F env now expire p s d)
  unfolding begin_alone add_target
  begin_alone-Steps now expire p who s db d i fresh k = made_link-Ends F _ _ _ _ k λ link rest made.
      gets-Ends _ _ _ (
        modify-Ends _ _ _ (
          let solo =
            k
            ▸ take_random rest
            ▸ add_solo _ (
                choose_link-free F env now p link (with_random F rest d)
                  (search_link-free F env now _ d link rest made)) in
          keep_session-Ends F env _ s _ _ solo λ _. pure-Ends _ _ (solo ▸ start_session _ i fresh)))

  begin_group-Steps :
      (now expire : ℕ) (p : Params F) (who : Text) (s : Session F) (db d : Db F)
      → s.id ≡ who
      → s.points ≡ []
      → Steps F env.max_cached_pts now who db d
      → Written F env.max_cached_pts now who db (begin_group F env now expire p s d)
  unfolding begin_group add_host add_target
  begin_group-Steps now expire p who s db d i fresh k = made_link-Ends F _ _ _ _ k λ link rest made.
      any_random-Ends F _ _ _ λ o more. gets-Ends _ _ _ (
        modify-Ends _ _ _ (
          let group =
            k
            ▸ take_random rest
            ▸ take_random more
            ▸ add_group _ (
                choose_link-free F env now p link (with_random F more d)
                  (search_link-free F env now _ d link rest made)) in
          keep_session-Ends F env _ s _ _ group
            λ _. pure-Ends _ _ (group ▸ start_session _ i fresh)))

  enter_group-Steps :
      (now : ℕ) (p : Params F) (who : Text) (s : Session F) (db d : Db F)
      → s.id ≡ who
      → s.points ≡ []
      → Steps F env.max_cached_pts now who db d
      → Written F env.max_cached_pts now who db (enter_group F env now p s d)
  unfolding enter_group add_target
  enter_group-Steps now p who s db d i fresh k = gets-Ends _ _ _ (
      or_reply-Ends _ _ _ _ k λ g found. modify-Ends _ _ _ (
        let group = k ▸ host_joins _ g _ found (add_host-SameGroup p.nickname s.id g) in
        keep_session-Ends F env _ s _ _ group λ _. pure-Ends _ _ (group ▸ start_session _ i fresh)))

  by_mode-Steps :
      (now expire : ℕ) (p : Params F) (who : Text) (s : Session F) (m : Mode) (db d : Db F)
      → s.id ≡ who
      → s.points ≡ []
      → Steps F env.max_cached_pts now who db d
      → Written F env.max_cached_pts now who db (by_mode F env now expire p s m d)
  by_mode-Steps now expire p who s create_alone db d i h k =
      begin_alone-Steps now expire p who s db d i h k
  by_mode-Steps now expire p who s create_group db d i h k =
      begin_group-Steps now expire p who s db d i h k
  by_mode-Steps now expire p who s join_group db d i h k = enter_group-Steps now p who s db d i h k
  by_mode-Steps now expire p who s other_mode db d i h k = pure-Ends _ _ k

  pub handle_create-Steps :
      (now : ℕ) (form : Option Form) (db : Db F)
      → Written F env.max_cached_pts now
          (new_id (read 32 db.random))
          db
          (handle_create F env now form db)
  unfolding handle_create
  handle_create-Steps now form db = or_reply-Ends _ _ _ _ stay λ f _.
      reads-Ends (Accepted F env f) _ _ _ (check_form-Accepted F env f db) (λ _. stay)
        λ p _.
          read_random-Ends F _ _ _ (λ _. missing-Ends _ _ _ stay)
            λ bs rest w. given-Ends _ _ _ _ (
              by_mode-Steps now _ p (new_id (read 32 db.random)) _ p.mode db _
                (begin_session-id F env _ p _ ∙ sym (ap new_id w))
                (begin_session-points F env _ p _) (stay ▸ take_random rest))
