-- ===== src/Server/Db/Keys.antt =====
-- What each write leaves under the other keys.
use go_hauk.Prelude.{
  if◌then◌else◌, Text, text_eq, lookup, ℕ, ◌≡◌, refl, false, Option, none, some, arith,
}
use go_hauk.Frontend.Number.{Float}
use go_hauk.Frontend.Countdown.{show}
use go_hauk.Server.Store.{Entry}
use go_hauk.Server.Store.Laws.{lookup-put, lookup-delete}
use go_hauk.Server.Session.{Session}
use go_hauk.Server.Shares.{SoloShare, GroupShare, group_share}
use go_hauk.Server.Db.{
  Db, Value, session_value, share_value, id_value, session_key, share_key, pin_key, unix,
  load_session, load_share, save_session, delete_session, save_solo, delete_solo, save_group,
  delete_group, db_put, db_delete,
}

-- The keys of two sessions, of two shares and of two PINs are the same only if these are.
pub text_eq-session_key : (a b : Text) → text_eq (session_key a) (session_key b) ≡ text_eq a b
unfolding text_eq
text_eq-session_key a b = refl

pub text_eq-share_key : (a b : Text) → text_eq (share_key a) (share_key b) ≡ text_eq a b
unfolding text_eq
text_eq-share_key a b = refl

pub text_eq-pin_key : (a b : Text) → text_eq (pin_key a) (pin_key b) ≡ text_eq a b
unfolding text_eq
text_eq-pin_key a b = refl

-- What a key holds.
abbrev pub holds : (F : Float) → Text → Db F → Option (Entry (Value F))
holds F key db = lookup key db.memory

module _ (F : Float) where
  pub holds-db_put :
      (k j : Text) (v : Value F) (t : ℕ) (db : Db F)
      → holds F j (db_put F k v t db)
        ≡ (if text_eq k j then some (record { value = v; expire_at = t }) else holds F j db)
  holds-db_put k j v t db = lookup-put k j v t db.memory

  pub holds-db_delete :
      (k j : Text) (db : Db F)
      → holds F j (db_delete F k db) ≡ (if text_eq k j then none else holds F j db)
  holds-db_delete k j db = lookup-delete k j db.memory

  -- Whatever key is not the one written holds what it held.
  pub save_session-other :
      (s : Session F) (j : Text) (db : Db F)
      → text_eq (session_key s.id) j ≡ false
      → holds F j (save_session F s db).1 ≡ holds F j db
  unfolding save_session
  save_session-other s j db e =
      ground (arith, holds-db_put (session_key s.id) j (session_value s) (unix s.expire) db)

  pub save_solo-other :
      (s : SoloShare) (j : Text) (db : Db F)
      → text_eq (share_key s.id) j ≡ false
      → holds F j (save_solo F s db) ≡ holds F j db
  unfolding save_solo
  save_solo-other s j db e = rw (lookup-put, e) refl

  pub delete_solo-other :
      (id j : Text) (db : Db F)
      → text_eq (share_key id) j ≡ false
      → holds F j (delete_solo F id db) ≡ holds F j db
  unfolding delete_solo
  delete_solo-other id j db e = rw (lookup-delete, e) refl

  pub delete_session-other :
      (id j : Text) (db : Db F)
      → text_eq (session_key id) j ≡ false
      → holds F j (delete_session F id db) ≡ holds F j db
  unfolding delete_session
  delete_session-other id j db e = rw (lookup-delete, e) refl

  pub save_group-other :
      (g : GroupShare) (j : Text) (db : Db F)
      → text_eq (share_key g.id) j ≡ false
      → text_eq (pin_key (show g.group_pin)) j ≡ false
      → holds F j (save_group F g db) ≡ holds F j db
  unfolding save_group
  save_group-other g j db e p = rw (lookup-put, p, lookup-put, e) refl

  pub delete_group-other :
      (g : GroupShare) (j : Text) (db : Db F)
      → text_eq (share_key g.id) j ≡ false
      → text_eq (pin_key (show g.group_pin)) j ≡ false
      → holds F j (delete_group F g db) ≡ holds F j db
  unfolding delete_group
  delete_group-other g j db e p = rw (lookup-delete, e, lookup-delete, p) refl

  -- What is under the id of a share after the writes of a group.
  pub share_key-save_group :
      (g : GroupShare) (x : Text) (db : Db F)
      → holds F (share_key x) (save_group F g db) ≡ (
          if text_eq g.id x
          then some (record { value = share_value (group_share g); expire_at = unix g.expire })
          else holds F (share_key x) db)
  unfolding save_group text_eq
  share_key-save_group g x db =
      rw (holds-db_put (pin_key (show g.group_pin)) (share_key x) (id_value g.id) (unix g.expire) _)
        (holds-db_put (share_key g.id) (share_key x) (share_value (group_share g)) (unix g.expire)
          db)

  pub share_key-delete_group :
      (g : GroupShare) (x : Text) (db : Db F)
      → holds F (share_key x) (delete_group F g db)
        ≡ (if text_eq g.id x then none else holds F (share_key x) db)
  unfolding delete_group text_eq
  share_key-delete_group g x db =
      rw
        (
          holds-db_delete (share_key g.id) (share_key x) _,
          holds-db_delete (pin_key (show g.group_pin)) (share_key x) db,
        )
        refl

  -- A session and a group have the id by which they were loaded.
  pub load_session-id :
      (now max_pts : ℕ) (id : Text) (s : Session F) (db : Db F)
      → load_session F now max_pts id db ≡ some s
      → (s.id ≡ id) × (s.max_pts ≡ max_pts)
  unfolding load_session
  load_session-id now max_pts id s db e = (ground (arith), ground (arith))

  pub load_share-id :
      (now : ℕ) (id : Text) (g : GroupShare) (db : Db F)
      → load_share F now id db ≡ some (group_share g)
      → g.id ≡ id
  unfolding load_share
  load_share-id now id g db e = ground (arith)
