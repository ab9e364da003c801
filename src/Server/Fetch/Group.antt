-- ===== src/Server/Fetch/Group.antt =====
-- What a poll of a group share does to the viewer.
use go_hauk.Prelude.{
  Bool-cases, Option-cases, All, Text, text_eq, text_eq_iff, Dict, ◌≤◌, ◌≡◌, refl, ◌∙◌, ◌≢◌, inl,
  inr, Bool, true, false, not, ◌&&◌, ◌||◌, Option, none, some, List, [], ◌∷◌, arith,
}
use go_hauk.Frontend.Number.{Float, le}
use go_hauk.Frontend.Trail.{Row}
use go_hauk.Frontend.Trail.Incremental.{newer}
use go_hauk.Frontend.Trail.Sound.{AllSound}
use go_hauk.Frontend.Update.{Config, Page, group, apply}
use go_hauk.Frontend.Update.Throws.{is_null, has_null, apply_throws}
use go_hauk.Server.Session.{Cell, Session, get_points}
use go_hauk.Server.Session.Since.{as_rows, as_json, extend, IsTimed, get_points-newer}
use go_hauk.Server.Fetch.{
  GroupResponse, group_response, all_points, auto_interval, since_of, handle_fetch,
}
use go_hauk.Server.Shares.{GroupShare, Stored, group_share}

module _ (F : Float) where
  -- The points of the users as the client reads them.
  abbrev pub as_users : Dict (Option (List (List (Cell F)))) → Dict (Option (List (Row F)))
  as_users [] = []
  as_users ((nick, ps) ∷ users) = (nick, as_json F ps) ∷ as_users users

  abbrev is_none : List (Row F) → Bool
  is_none [] = true
  is_none (r ∷ rs) = false

  -- A session that is there, in the clear, and has no point after a time after 0.
  abbrev pub is_idle : F.Num → Option (Session F) → Bool
  is_idle since none = false
  is_idle since (some s) =
      not (le F since (F.of_ℕ 0))
      && (not s.encrypted && is_none (newer F since (as_rows F s.points)))

  is_null-extend : (rs : List (Row F)) → is_null F (extend F none rs) ≡ is_none rs
  is_null-extend [] = refl
  is_null-extend (r ∷ rs) = refl

  get_points-idle :
      (since : F.Num) (s : Session F)
      → (s.encrypted ≡ false → All (IsTimed F) s.points)
      → is_null F (as_json F (get_points F since s)) ≡ is_idle since (some s)
  unfolding get_points
  get_points-idle since s timed = elim (Bool-cases (le F since (F.of_ℕ 0))) [
    | inl early ↦ rw (get_points, early) refl
    | inr late ↦ elim (Bool-cases s.encrypted) [
      | inl sealed ↦ rw (get_points, late, sealed) refl
      | inr clear ↦
          rw (get_points-newer F since s late clear (timed clear), late, clear)
            (is_null-extend (newer F since (as_rows F s.points)))
    ]
  ]

  module _ (load_session : Text → Option (Session F)) where
    -- Some host of a group is idle.
    abbrev pub any_idle : F.Num → Dict Text → Bool
    any_idle since [] = false
    any_idle since ((nick, sid) ∷ hosts) = is_idle since (load_session sid) || any_idle since hosts

    -- The points of sessions in the clear have a time.
    abbrev pub AllTimed : Type 0
    AllTimed =
        (sid : Text) (s : Session F)
        → load_session sid ≡ some s
        → s.encrypted ≡ false
        → All (IsTimed F) s.points

    has_null-all_points :
        (since : F.Num) (hosts : Dict Text)
        → AllTimed
        → has_null F (as_users (all_points F load_session since hosts)) ≡ any_idle since hosts
    unfolding all_points
    has_null-all_points since [] timed = refl
    has_null-all_points since ((nick, sid) ∷ hosts) timed = elim (Option-cases (load_session sid)) [
      | inl e ↦ rw (e, all_points) (has_null-all_points since hosts timed)
      | inr (s, e) ↦
          rw
            (
              e,
              all_points,
              get_points-idle since s (timed sid s e),
              has_null-all_points since hosts timed,
            )
            refl
    ]

    module _ (load_share : Text → Option Stored) (parse_float : Text → F.Num) where
      -- When the viewer of a stored group polls, once the map was centered, the script throws at
      -- the answer exactly if some user's session is idle: it is there, in the clear, and has no
      -- point newer than `since`, which is after 0. The entries of the viewer are trails of at most
      -- `max_points` points, at least 1, and the points of sessions in the clear have a time.
      pub handle_fetch-apply :
          (cfg : Config F) (page : Page F) (id since_text : Text) (now : F.Num) (share : GroupShare)
          → 1 ≤ cfg.max_points
          → AllSound F cfg.max_points page.shares
          → page.has_initiated ≡ true
          → id ≢ []
          → load_share id ≡ some (group_share share)
          → AllTimed
          → (r : GroupResponse F) × (handle_fetch F load_session load_share parse_float id
                since_text now
              ≡ group_response r)
            × ((apply F cfg r.server_time (group (as_users r.points)) page).1
                ≡ any_idle (since_of F load_session load_share parse_float since_text) share.hosts)
      unfolding handle_fetch
      handle_fetch-apply cfg page id since_text now share pos sound done some_id found timed =
          let since = since_of F load_session load_share parse_float since_text in
          let named : text_eq id [] ≡ false = ground (arith, text_eq_iff id []) in
          let users = as_users (all_points F load_session since share.hosts) in
          (
            record {
              expire = share.expire;
              server_time = now;
              interval = auto_interval F load_session (F.of_ℕ 0) share.hosts;
              points = all_points F load_session since share.hosts;
            },
            rw (handle_fetch, named, found) refl,
            apply_throws F cfg now (group users) page pos sound done
                ∙ has_null-all_points since share.hosts timed,
          )
