-- ===== src/Server/Api/Stopped.antt =====
-- What is left when a phone has ended its session.
use go_hauk.Prelude.{
  true-false, ltb, if◌then◌else◌, Bool-cases, Text, codes, text_eq, text_eq_iff, ℕ, ◌≤◌, ◌<◌, ◌≡◌,
  refl, sym, ap, subst, ◌∙◌, ◌≢◌, inl, inr, Bool, true, false, Option, none, some, List, [], ◌∷◌,
  arith,
}
use go_hauk.Frontend.Number.{Float}
use go_hauk.Server.Store.{Entry, get}
use go_hauk.Server.Session.{Session}
use go_hauk.Server.Shares.{SoloShare, GroupShare, Stored, solo_share, group_share}
use go_hauk.Server.Db.{
  Db, Value, session_value, share_value, id_value, session_key, share_key, unix, load_session,
  load_share, delete_solo, delete_session, save_group, delete_group,
}
use go_hauk.Server.Db.Keys.{holds, text_eq-share_key, holds-db_delete, delete_session-other}
use go_hauk.Server.Handlers.{Env}
use go_hauk.Server.Action.Rules.{
  gets-Ends, modify-Ends, given-Ends, pure-Ends, if-Ends, known-Ends, tested-Ends, Ends-state,
}
use go_hauk.Server.Store.Laws.{get-some}
use go_hauk.Server.Shares.{remove_host}
use go_hauk.Server.Db.{as_share}
use go_hauk.Server.Db.Keys.{load_share-id, share_key-save_group, share_key-delete_group}
use go_hauk.Server.Handlers.{Form, form_value, is_empty}
use go_hauk.Server.Handlers.Stop.{
  handle_stop, stop_link, stop_all, end_share_of, end_shares, end_stored, has_target,
}

is_empty-nil : (t : Text) → is_empty t ≡ true → t ≡ []
is_empty-nil [] e = refl
is_empty-nil (c ∷ t) e = cc

late : (later now u : ℕ) → now ≤ later → u < now → ltb u later ≡ false → ⊥
late later now u h l e = ground (arith)

module _ (F : Float) (env : Env F) where
  abbrev entry : Value F → ℕ → Option (Entry (Value F))
  entry v t = some (record { value = v; expire_at = t })

  -- A share of one user that may be there is gone at the time `now`.
  unfoldable NoSolo : ℕ → Option (Entry (Value F)) → Type 0
  NoSolo now o = (x : SoloShare) (t : ℕ) → o ≡ entry (share_value (solo_share x)) t → t < now

  NoSolo-none : (now : ℕ) → NoSolo now none
  unfolding NoSolo
  NoSolo-none now x t e = absurd (ground (arith))

  NoSolo-group : (now u : ℕ) (g : GroupShare) → NoSolo now (entry (share_value (group_share g)) u)
  unfolding NoSolo
  NoSolo-group now u g x t e = absurd (ground (arith))

  NoSolo-missing :
      (now : ℕ) (id : Text) (d : Db F)
      → load_share F now id d ≡ none
      → NoSolo now (holds F (share_key id) d)
  unfolding NoSolo load_share get
  NoSolo-missing now id d l x t e = ground (arith)

  NoSolo-if :
      (now : ℕ) (b : Bool) (o p : Option (Entry (Value F)))
      → NoSolo now o
      → (b ≡ false → NoSolo now p)
      → NoSolo now (if b then o else p)
  NoSolo-if now true o p h k = h
  NoSolo-if now false o p h k = k refl

  Left : ℕ → Text → Db F → Type 0
  Left now t d = NoSolo now (holds F (share_key t) d)

  leave-Left :
      (now : ℕ) (t : Text) (b : Bool) (g : GroupShare) (d : Db F)
      → (text_eq g.id t ≡ false → NoSolo now (holds F (share_key t) d))
      → NoSolo now (holds F (share_key t) (if b then delete_group F g d else save_group F g d))
  leave-Left now t true g d h =
      subst (NoSolo now) (sym (share_key-delete_group F g t d))
        (NoSolo-if now (text_eq g.id t) _ _ (NoSolo-none now) h)
  leave-Left now t false g d h =
      subst (NoSolo now) (sym (share_key-save_group F g t d))
        (NoSolo-if now (text_eq g.id t) _ _ (NoSolo-group now (unix g.expire) g) h)

  -- The share that is ended is gone, and none comes back.
  end_share_of-NoSolo :
      (now : ℕ) (who id t : Text) (d : Db F)
      → (text_eq id t ≡ false → NoSolo now (holds F (share_key t) d))
      → NoSolo now (holds F (share_key t) (end_share_of F now who id d))
  unfolding end_share_of remove_host delete_solo
  end_share_of-NoSolo now who id t d h = go (load_share F now id d) refl
    where
      go :
          (o : Option Stored)
          → load_share F now id d ≡ o
          → NoSolo now (holds F (share_key t) (end_stored F who id o d))
      go none l = elim (Bool-cases (text_eq id t)) [
        | inl same ↦
            subst (λ z. NoSolo now (holds F (share_key z) d)) ((text_eq_iff id t).0 same)
              (NoSolo-missing now id d l)
        | inr other ↦ h other
      ]
      go (some (solo_share x)) l =
          subst (NoSolo now)
            (sym (
              holds-db_delete F (share_key id) (share_key t) d
              ∙ ap (λ b. if b then none else holds F (share_key t) d) (text_eq-share_key id t)))
            (NoSolo-if now (text_eq id t) _ _ (NoSolo-none now) h)
      go (some (group_share g)) l =
          leave-Left now t (is_empty (remove_host who g).hosts) (remove_host who g) d
            (λ n. h (ap (λ z. text_eq z t) (sym (load_share-id F now id g d l)) ∙ n))

  end_shares-NoSolo :
      (now : ℕ) (who t : Text) (ids : List Text) (d : Db F)
      → (has_target t ids ≡ false → NoSolo now (holds F (share_key t) d))
      → NoSolo now (holds F (share_key t) (end_shares F now who ids d))
  unfolding end_shares has_target
  end_shares-NoSolo now who t [] d h = h refl
  end_shares-NoSolo now who t (id ∷ ids) d h =
      end_shares-NoSolo now who t ids (end_share_of F now who id d)
        (λ n. end_share_of-NoSolo now who id t d (λ m. h (rw (m, n) refl)))

  NoSolo-load_share :
      (now later : ℕ) (t : Text) (x : SoloShare) (d : Db F)
      → now ≤ later
      → NoSolo now (holds F (share_key t) d)
      → load_share F later t d ≢ some (solo_share x)
  unfolding NoSolo load_share
  NoSolo-load_share now later t x d h n e = go (get later (share_key t) d.memory) refl e
    where
      go :
          (o : Option (Value F))
          → get later (share_key t) d.memory ≡ o
          → as_share F t o ≡ some (solo_share x)
          → ⊥
      go (some (share_value (solo_share y))) w e =
          let (u, stored, alive) =
            get-some later (share_key t) d.memory (share_value (solo_share y)) w in
          late later now u h (n y u stored) alive
      go (some (share_value (group_share g))) w e = ground (arith)
      go (some (session_value y)) w e = ground (arith)
      go (some (id_value y)) w e = ground (arith)
      go none w e = ground (arith)

  -- All shares are ended, then the session.
  handle_stop-all :
      (now : ℕ) (f : Form) (s : Session F) (db : Db F)
      → form_value (codes "lid") f ≡ []
      → form_value (codes "sid") f ≢ []
      → load_session F now env.max_cached_pts (form_value (codes "sid") f) db ≡ some s
      → (handle_stop F env now (some f) db).1
        ≡ delete_session F
            (form_value (codes "sid") f)
            (end_shares F now (form_value (codes "sid") f) s.targets db)
  unfolding handle_stop stop_all
  handle_stop-all now f s db all named found =
      Ends-state
        {I = λ d.
          d
          ≡ delete_session F (form_value (codes "sid") f)
              (end_shares F now (form_value (codes "sid") f) s.targets db)}
        (given-Ends _ _ _ _ (
          tested-Ends _ _ _ _ (λ e. absurd (named (is_empty-nil _ e)))
            λ _. gets-Ends _ _ _ (
              known-Ends _ s _ _ _ found (
                if-Ends (is_empty (form_value (codes "lid") f))
                  (stop_all F now (form_value (codes "sid") f) s)
                  (stop_link F now (form_value (codes "sid") f) (form_value (codes "lid") f) s) db
                  (λ _. modify-Ends _ _ _ (modify-Ends _ _ _ (pure-Ends _ _ refl)))
                  (λ e. absurd (true-false (ap is_empty (sym all) ∙ e)))))))

  load_session-deleted :
      (now max_pts : ℕ) (id : Text) (d : Db F)
      → load_session F now max_pts id (delete_session F id d) ≡ none
  unfolding load_session delete_session get
  load_session-deleted now max_pts id d =
      rw
        (
          holds-db_delete F (session_key id) (session_key id) d,
          (text_eq_iff (session_key id) (session_key id)).1 refl,
        )
        refl

  -- After a request without a link, but with the id of a session that is there, the session is not
  -- loaded at any later time, and under none of its targets is a share of one user.
  pub handle_stop-ended :
      (now later : ℕ) (f : Form) (s : Session F) (t : Text) (x : SoloShare) (db : Db F)
      → form_value (codes "lid") f ≡ []
      → form_value (codes "sid") f ≢ []
      → load_session F now env.max_cached_pts (form_value (codes "sid") f) db ≡ some s
      → now ≤ later
      → (load_session F later env.max_cached_pts
            (form_value (codes "sid") f)
            (handle_stop F env now (some f) db).1
          ≡ none)
        × (has_target t s.targets ≡ true
            → load_share F later t (handle_stop F env now (some f) db).1 ≢ some (solo_share x))
  unfolding text_eq
  handle_stop-ended now later f s t x db all named found h =
      rw (handle_stop-all now f s db all named found) (
        load_session-deleted later _ _ _,
        λ mine. NoSolo-load_share now later t x _ h (
            subst (NoSolo now) (sym (delete_session-other F _ (share_key t) _ refl)) (
              end_shares-NoSolo now _ t s.targets db
                (λ other. absurd (true-false (sym mine ∙ other))))),
      )
