-- ===== src/Server/Api/Steps.antt =====
-- The writes that the handlers make, one at a time, as a relation between the states before and after.
use go_hauk.Prelude.{Text, codes, ℕ, ◌≡◌, refl, false, Option, none, some, List, []}
use go_hauk.Frontend.Number.{Float}
use go_hauk.Server.Action.{Outcome, Ends}
use go_hauk.Server.Store.{get}
use go_hauk.Server.Session.{Cell, Session, add_point, add_target, remove_target}
use go_hauk.Server.Shares.{SoloShare, GroupShare, solo_share, group_share}
use go_hauk.Server.Handlers.{Form, form_value}
use go_hauk.Server.Db.{
  Response, Db, session_key, share_key, db_exists, load_session, load_share, load_by_pin, save_solo,
  delete_solo, delete_session, save_group, delete_group,
}
use go_hauk.Server.Db.Keys.{holds}
use go_hauk.Server.Db.Rules.{put_session, with_random}

-- The session that a form names.
abbrev pub sender : Option Form → Text
sender none = []
sender (some f) = form_value (codes "sid") f

module _ (F : Float) (max_pts : ℕ) where
  -- What a request makes of a session that is stored.
  pub data Next (s : Session F) : Session F → Type 0 where
    new_point : (p : List (Cell F)) → Next s (add_point F p s)
    new_target : (id : Text) → Next s (add_target F id s)
    old_target : (id : Text) → Next s (remove_target F id s)

  -- The same group, but for its hosts.
  unfoldable pub SameGroup : GroupShare → GroupShare → Type 0
  SameGroup g h = (g.id ≡ h.id) × (g.expire ≡ h.expire) × (g.group_pin ≡ h.group_pin)

  -- One write at the time `now` of a request for the session `who`.
  pub data Step (now : ℕ) (who : Text) (d : Db F) : Db F → Type 0 where
    take_random : (bs : List ℕ) → Step now who d (with_random F bs d)
    start_session :
        (s : Session F) → s.id ≡ who → s.points ≡ [] → Step now who d (put_session F s d)
    change_session :
        (s t : Session F)
        → load_session F now max_pts who d ≡ some s
        → Next s t
        → Step now who d (put_session F t d)
    end_session : Step now who d (delete_session F who d)
    add_solo :
        (x : SoloShare)
        → db_exists F now (share_key x.id) d ≡ false
        → Step now who d (save_solo F x d)
    end_solo :
        (id : Text) (x : SoloShare)
        → load_share F now id d ≡ some (solo_share x)
        → Step now who d (delete_solo F id d)
    add_group :
        (g : GroupShare)
        → db_exists F now (share_key g.id) d ≡ false
        → Step now who d (save_group F g d)
    host_joins :
        (pin : Text) (g h : GroupShare)
        → load_by_pin F now pin d ≡ some g
        → SameGroup g h
        → Step now who d (save_group F h d)
    host_leaves :
        (id : Text) (g h : GroupShare)
        → load_share F now id d ≡ some (group_share g)
        → SameGroup g h
        → Step now who d (save_group F h d)
    end_group :
        (id : Text) (g h : GroupShare)
        → load_share F now id d ≡ some (group_share g)
        → SameGroup g h
        → Step now who d (delete_group F h d)

  -- One write after another.
  infixl 4 ◌▸◌
  pub data Steps (now : ℕ) (who : Text) (d : Db F) : Db F → Type 0 where
    stay : Steps now who d d
    ◌▸◌ : {e f : Db F} → Steps now who d e → Step now who e f → Steps now who d f

  -- Every end of a call is reached by such writes from the state `db`.
  abbrev pub Written : {A : Type 0} → ℕ → Text → Db F → Outcome Response A × Db F → Type 0
  Written now who db = Ends (λ _. Steps now who db) (λ _. Steps now who db)

  abbrev pub Loads : ℕ → Text → Session F → Db F → Type 0
  Loads now who s d = load_session F now max_pts who d ≡ some s

  -- What every write keeps holds after all of them.
  pub invariant_lem :
      (now : ℕ) (who : Text) (I : Db F → Type 0)
      → ((d e : Db F) → Step now who d e → I d → I e)
      → (d e : Db F) → Steps now who d e
      → I d
      → I e
  invariant_lem now who I step d e stay i = i
  invariant_lem now who I step d e (s ▸ w) i = step _ e w (invariant_lem now who I step d _ s i)

  -- A write of shares leaves the sessions.
  pub load_session-same :
      (now : ℕ) (who : Text) (d e : Db F)
      → holds F (session_key who) e ≡ holds F (session_key who) d
      → load_session F now max_pts who e ≡ load_session F now max_pts who d
  unfolding load_session get
  load_session-same now who d e h = rw h refl
