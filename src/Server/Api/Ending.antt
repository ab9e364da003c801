-- ===== src/Server/Api/Ending.antt =====
-- The writes of `handleStop` of api/stop.go.
use go_hauk.Prelude.{
  if◌then◌else◌, Text, codes, text_eq, ℕ, ◌≡◌, refl, ◌∙◌, Bool, true, false, Option, none, some,
  List, [], ◌∷◌,
}
use go_hauk.Frontend.Number.{Float}
use go_hauk.Server.Action.Rules.{
  gets-Ends, modify-Ends, reply_if-Ends, or_reply-Ends, missing-Ends, given-Ends, pure-Ends,
  if-Ends,
}
use go_hauk.Server.Session.{Session}
use go_hauk.Server.Shares.{GroupShare, Stored, solo_share, group_share, remove_host}
use go_hauk.Server.Db.{Db, session_key, load_share, save_group, delete_group}
use go_hauk.Server.Db.Keys.{delete_solo-other, save_group-other, delete_group-other}
use go_hauk.Server.Db.Rules.{unasked-Ends}
use go_hauk.Server.Handlers.{Env, Form, is_empty, form_value}
use go_hauk.Server.Handlers.Stop.{
  handle_stop, stop_link, stop_all, end_share_of, end_shares, end_stored,
}
use go_hauk.Server.Api.Steps.{
  Steps, stay, ◌▸◌, change_session, end_session, end_solo, host_leaves, end_group, old_target,
  SameGroup, load_session-same, Written, Loads, sender,
}

module _ (F : Float) (env : Env F) where
  pub remove_host-SameGroup :
      (who : Text) (g : GroupShare) → SameGroup F env.max_cached_pts g (remove_host who g)
  unfolding SameGroup remove_host
  remove_host-SameGroup who g = (refl, refl, refl)

  pub end_share_of-Steps :
      (now : ℕ) (who id : Text) (db d : Db F)
      → Steps F env.max_cached_pts now who db d
      → Steps F env.max_cached_pts now who db (end_share_of F now who id d)
  unfolding end_share_of
  end_share_of-Steps now who id db d k = go (load_share F now id d) refl
    where
      leave :
          (b : Bool) (g h : GroupShare)
          → load_share F now id d ≡ some (group_share g)
          → SameGroup F env.max_cached_pts g h
          → Steps F env.max_cached_pts now who db
              (if b then delete_group F h d else save_group F h d)
      leave true g h w same = k ▸ end_group id g h w same
      leave false g h w same = k ▸ host_leaves id g h w same

      go :
          (x : Option Stored)
          → load_share F now id d ≡ x
          → Steps F env.max_cached_pts now who db (end_stored F who id x d)
      go none w = k
      go (some (solo_share s)) w = k ▸ end_solo id s w
      go (some (group_share g)) w =
          leave (is_empty (remove_host who g).hosts) g (remove_host who g) w
            (remove_host-SameGroup who g)

  pub end_shares-Steps :
      (now : ℕ) (who : Text) (ids : List Text) (db d : Db F)
      → Steps F env.max_cached_pts now who db d
      → Steps F env.max_cached_pts now who db (end_shares F now who ids d)
  unfolding end_shares
  end_shares-Steps now who [] db d k = k
  end_shares-Steps now who (id ∷ ids) db d k =
      end_shares-Steps now who ids db (end_share_of F now who id d)
        (end_share_of-Steps now who id db d k)

  pub end_share_of-load_session :
      (now : ℕ) (who id : Text) (s : Session F) (d : Db F)
      → Loads F env.max_cached_pts now who s d
      → Loads F env.max_cached_pts now who s (end_share_of F now who id d)
  unfolding end_share_of text_eq
  end_share_of-load_session now who id s d k = go (load_share F now id d)
    where
      leave :
          (b : Bool) (g : GroupShare)
          → Loads F env.max_cached_pts now who s
              (if b then delete_group F g d else save_group F g d)
      leave true g =
          load_session-same F env.max_cached_pts now who d _
            (delete_group-other F g (session_key who) d refl refl)
          ∙ k
      leave false g =
          load_session-same F env.max_cached_pts now who d _
            (save_group-other F g (session_key who) d refl refl)
          ∙ k

      go : (x : Option Stored) → Loads F env.max_cached_pts now who s (end_stored F who id x d)
      go none = k
      go (some (solo_share x)) =
          load_session-same F env.max_cached_pts now who d _
            (delete_solo-other F id (session_key who) d refl)
          ∙ k
      go (some (group_share g)) = leave (is_empty (remove_host who g).hosts) (remove_host who g)

  pub stop_link-Steps :
      (now : ℕ) (who lid : Text) (s : Session F) (db : Db F)
      → Loads F env.max_cached_pts now who s db
      → Written F env.max_cached_pts now who db (stop_link F now who lid s db)
  unfolding stop_link
  stop_link-Steps now who lid s db l = reply_if-Ends _ _ _ _ stay λ _. modify-Ends _ _ _ (
      let left = end_share_of-Steps now who lid db db stay in
      unasked-Ends F _ _ _
        (λ _. pure-Ends _ _ (
          left
          ▸ change_session s _ (end_share_of-load_session now who lid s db l) (old_target lid)))
        (λ _. pure-Ends _ _ left))

  pub stop_all-Steps :
      (now : ℕ) (who : Text) (s : Session F) (db : Db F)
      → Written F env.max_cached_pts now who db (stop_all F now who s db)
  unfolding stop_all
  stop_all-Steps now who s db = modify-Ends _ _ _ (
      modify-Ends _ _ _
        (pure-Ends _ _ (end_shares-Steps now who s.targets db db stay ▸ end_session)))

  pub handle_stop-Steps :
      (now : ℕ) (form : Option Form) (db : Db F)
      → Written F env.max_cached_pts now (sender form) db (handle_stop F env now form db)
  unfolding handle_stop
  handle_stop-Steps now none db = missing-Ends _ _ _ stay
  handle_stop-Steps now (some f) db = given-Ends _ _ _ _ (
      reply_if-Ends _ _ _ _ stay λ _. gets-Ends _ _ _ (
        or_reply-Ends _ _ _ _ stay λ s l.
          if-Ends (is_empty (form_value (codes "lid") f))
            (stop_all F now (form_value (codes "sid") f) s)
            (stop_link F now (form_value (codes "sid") f) (form_value (codes "lid") f) s) db
            (λ _. stop_all-Steps now _ s db) (λ _. stop_link-Steps now _ _ s db l)))
