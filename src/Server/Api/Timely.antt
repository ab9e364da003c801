-- ===== src/Server/Api/Timely.antt =====
-- How long sessions and shares are kept, and how much of a session.
use go_hauk.Prelude.{
  ltb-false, if◌then◌else◌, Bool-cases, length, Text, text_eq, lookup, ℕ, ◌≤◌, ◌≡◌, refl, sym, ap,
  subst, ◌∙◌, inl, inr, Option, none, some, List, arith,
}
use go_hauk.Frontend.Number.{Float}
use go_hauk.Frontend.Countdown.{show}
use go_hauk.Server.Store.{Entry, empty, get}
use go_hauk.Server.Store.Laws.{get-some}
use go_hauk.Server.Session.{Session, add_point, add_target, remove_target}
use go_hauk.Server.Session.Window.{add_point-short}
use go_hauk.Server.Shares.{GroupShare, Stored, solo_share, group_share}
use go_hauk.Server.Db.{
  Db, Value, session_value, share_value, id_value, session_key, share_key, pin_key, unix,
  load_session, load_share, as_session, as_share, db_put, db_delete, save_solo, delete_solo,
  delete_session, save_group, delete_group,
}
use go_hauk.Server.Db.Keys.{holds, holds-db_put, holds-db_delete}
use go_hauk.Server.Db.Rules.{put_session, with_random}
use go_hauk.Server.Handlers.{Env}
use go_hauk.Server.Api.{Serves}
use go_hauk.Server.Api.Steps.{
  Step, take_random, start_session, change_session, end_session, add_solo, end_solo, add_group,
  host_joins, host_leaves, end_group, Next, new_point, new_target, old_target,
}
use go_hauk.Server.Api.Handled.{Serves-invariant}

some-same {ℓ} : {A : Type ℓ} (a b : A) → some a ≡ some b → a ≡ b
some-same a b e = cc

none-some {ℓ} : {A : Type ℓ} (a : A) → ¬ (none ≡ some a)
none-some a e = cc

module _ (F : Float) (env : Env F) where
  abbrev entry : Value F → ℕ → Option (Entry (Value F))
  entry v t = some (record { value = v; expire_at = t })

  abbrev pub ends_at : Stored → ℕ
  ends_at (solo_share s) = s.expire
  ends_at (group_share g) = g.expire

  -- A value under a key goes when it says so, and a session has no more points than are to be cached.
  abbrev Fits : Value F → ℕ → Type 0
  Fits (session_value s) t = (t ≡ unix s.expire) × (length s.points ≤ env.max_cached_pts)
  Fits (share_value v) t = t ≡ unix (ends_at v)
  Fits (id_value x) t = Unit

  unfoldable pub AllFit : Db F → Type 0
  AllFit d = (j : Text) (v : Value F) (t : ℕ) → holds F j d ≡ entry v t → Fits v t

  put-AllFit :
      (k : Text) (v : Value F) (t : ℕ) (d : Db F) → Fits v t → AllFit d → AllFit (db_put F k v t d)
  unfolding AllFit
  put-AllFit k v t d f h j w u e = elim (Bool-cases (text_eq k j)) [
    | inl same ↦
        subst (λ r. Fits r.value r.expire_at)
          (some-same _ _ (
            sym (holds-db_put F k j v t d ∙ ap (λ b. if b then entry v t else holds F j d) same)
            ∙ e))
          f
    | inr other ↦
        h j w u (
          sym (holds-db_put F k j v t d ∙ ap (λ b. if b then entry v t else holds F j d) other) ∙ e)
  ]

  delete-AllFit : (k : Text) (d : Db F) → AllFit d → AllFit (db_delete F k d)
  unfolding AllFit
  delete-AllFit k d h j w u e = elim (Bool-cases (text_eq k j)) [
    | inl same ↦ absurd (
        none-some _
          (sym (holds-db_delete F k j d ∙ ap (λ b. if b then none else holds F j d) same) ∙ e))
    | inr other ↦
        h j w u
          (sym (holds-db_delete F k j d ∙ ap (λ b. if b then none else holds F j d) other) ∙ e)
  ]

  random-AllFit : (bs : List ℕ) (d : Db F) → AllFit d → AllFit (with_random F bs d)
  unfolding AllFit
  random-AllFit bs d h = h

  save_group-AllFit : (g : GroupShare) (d : Db F) → AllFit d → AllFit (save_group F g d)
  unfolding save_group
  save_group-AllFit g d h =
      put-AllFit (pin_key (show g.group_pin)) (id_value g.id) (unix g.expire) _ tt
        (put-AllFit (share_key g.id) (share_value (group_share g)) (unix g.expire) d refl h)

  -- A session that is loaded, and when.
  pub loaded :
      (now : ℕ) (who : Text) (s : Session F) (d : Db F)
      → AllFit d
      → load_session F now env.max_cached_pts who d ≡ some s
      → (now ≤ unix s.expire)
        × (length s.points ≤ env.max_cached_pts)
        × (s.max_pts ≡ env.max_cached_pts)
  unfolding AllFit load_session
  loaded now who s d h e = go (get now (session_key who) d.memory) refl e
    where
      go :
          (o : Option (Value F))
          → get now (session_key who) d.memory ≡ o
          → as_session F who env.max_cached_pts o ≡ some s
          → (now ≤ unix s.expire)
            × (length s.points ≤ env.max_cached_pts)
            × (s.max_pts ≡ env.max_cached_pts)
      go (some (session_value r)) w e =
          let (t, stored, alive) = get-some now (session_key who) d.memory (session_value r) w in
          let fits = h (session_key who) (session_value r) t stored in
          subst
            (λ z.
              (now ≤ unix z.expire)
              × (length z.points ≤ env.max_cached_pts)
              × (z.max_pts ≡ env.max_cached_pts))
            (some-same (record r { id = who; max_pts = env.max_cached_pts }) s e)
            (subst (λ u. now ≤ u) fits.0 (ltb-false t now alive), fits.1, refl)
      go none w e = absurd (ground (arith))
      go (some (share_value r)) w e = absurd (ground (arith))
      go (some (id_value r)) w e = absurd (ground (arith))

  put_session-AllFit :
      (s : Session F) (d : Db F)
      → length s.points ≤ env.max_cached_pts
      → AllFit d
      → AllFit (put_session F s d)
  put_session-AllFit s d short h =
      put-AllFit (session_key s.id) (session_value s) (unix s.expire) d (refl, short) h

  Next-short :
      (s t : Session F)
      → Next F env.max_cached_pts s t
      → length s.points ≤ env.max_cached_pts
      → s.max_pts ≡ env.max_cached_pts
      → length t.points ≤ env.max_cached_pts
  unfolding add_target remove_target
  Next-short s _ (new_point p) short max =
      subst (λ n. length (add_point F p s).points ≤ n) max (add_point-short F p s)
  Next-short s _ (new_target id) short max = short
  Next-short s _ (old_target id) short max = short

  Step-AllFit :
      (now : ℕ) (who : Text) (d e : Db F)
      → Step F env.max_cached_pts now who d e
      → AllFit d
      → AllFit e
  unfolding save_solo delete_solo delete_session delete_group
  Step-AllFit now who d _ (take_random bs) h = random-AllFit bs d h
  Step-AllFit now who d _ (start_session s i fresh) h =
      put_session-AllFit s d (rw fresh (omega arith)) h
  Step-AllFit now who d _ (change_session s t l next) h =
      let (alive, short, max) = loaded now who s d h l in
      put_session-AllFit t d (Next-short s t next short max) h
  Step-AllFit now who d _ end_session h = delete-AllFit (session_key who) d h
  Step-AllFit now who d _ (add_solo x free) h =
      put-AllFit (share_key x.id) (share_value (solo_share x)) (unix x.expire) d refl h
  Step-AllFit now who d _ (end_solo id x l) h = delete-AllFit (share_key id) d h
  Step-AllFit now who d _ (add_group g free) h = save_group-AllFit g d h
  Step-AllFit now who d _ (host_joins pin g h l same) fits = save_group-AllFit h d fits
  Step-AllFit now who d _ (host_leaves id g h l same) fits = save_group-AllFit h d fits
  Step-AllFit now who d _ (end_group id g h l same) fits =
      delete-AllFit (share_key h.id) _ (delete-AllFit (pin_key (show h.group_pin)) d fits)

  pub reached-AllFit :
      (start t : ℕ) (random : List ℕ) (d : Db F)
      → Serves F env start (record { memory = empty; random = random }) t d
      → AllFit d
  unfolding AllFit lookup
  reached-AllFit start t random d s =
      Serves-invariant F env (λ _. AllFit) (λ _ _ _ _ h. h) Step-AllFit start _ t d s
        (λ j v u e. absurd (none-some _ e))

  -- In a store that requests have led to from an empty one, a session that is found has not expired
  -- before `now`, and it has at most as many points as are to be cached.
  pub Serves-load_session :
      (start t now : ℕ) (random : List ℕ) (d : Db F) (sid : Text) (s : Session F)
      → Serves F env start (record { memory = empty; random = random }) t d
      → load_session F now env.max_cached_pts sid d ≡ some s
      → (now ≤ unix s.expire) × (length s.points ≤ env.max_cached_pts)
  Serves-load_session start t now random d sid s r e =
      let (alive, short, max) = loaded now sid s d (reached-AllFit start t random d r) e in
      (alive, short)

  pub loaded_share :
      (now : ℕ) (id : Text) (v : Stored) (d : Db F)
      → AllFit d
      → load_share F now id d ≡ some v
      → now ≤ unix (ends_at v)
  unfolding AllFit load_share
  loaded_share now id v d h e = go (get now (share_key id) d.memory) refl e
    where
      go :
          (o : Option (Value F))
          → get now (share_key id) d.memory ≡ o
          → as_share F id o ≡ some v
          → now ≤ unix (ends_at v)
      go (some (share_value (solo_share r))) w e =
          let (t, stored, alive) = get-some now (share_key id) d.memory _ w in
          subst (λ z. now ≤ unix (ends_at z)) (some-same (solo_share (record r { id = id })) v e)
            (subst (λ u. now ≤ u) (h (share_key id) (share_value (solo_share r)) t stored)
              (ltb-false t now alive))
      go (some (share_value (group_share r))) w e =
          let (t, stored, alive) = get-some now (share_key id) d.memory _ w in
          subst (λ z. now ≤ unix (ends_at z)) (some-same (group_share (record r { id = id })) v e)
            (subst (λ u. now ≤ u) (h (share_key id) (share_value (group_share r)) t stored)
              (ltb-false t now alive))
      go none w e = absurd (ground (arith))
      go (some (session_value r)) w e = absurd (ground (arith))
      go (some (id_value r)) w e = absurd (ground (arith))
