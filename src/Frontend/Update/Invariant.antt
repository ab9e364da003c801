-- ===== src/Frontend/Update/Invariant.antt =====
-- Every answer leaves every user's entry a trail of bounded length.
use go_hauk.Prelude.{
  Option, none, some, arith, Bool-cases, Option-cases, Text, Dict, lookup, ℕ, suc, ◌≤◌, ◌≡◌, refl,
  inl, inr, Bool, true, false, not, ◌&&◌, List, [], ◌∷◌,
}
use go_hauk.Frontend.Number.{Float}
use go_hauk.Frontend.Trail.{Row, Share}
use go_hauk.Frontend.Trail.Order.{new_share-IsTrail}
use go_hauk.Frontend.Trail.Sound.{IsSound, AllSound, lookup-AllSound, insert-AllSound}
use go_hauk.Frontend.Staleness.Total.{mark_shares-AllSound}
use go_hauk.Frontend.Shares.{View}
use go_hauk.Frontend.Staleness.{mark_shares}
use go_hauk.Frontend.Update.{
  unless_thrown, finish, Config, Page, Points, is_multi, users_of, with_share, update_user,
  update_users, centered, center, apply,
}
use go_hauk.Frontend.Update.Sound.{update_share-IsSound}

module _ (F : Float) where
  module _ (cfg : Config F) (pos : 1 ≤ cfg.max_points) where
    with_share-AllSound :
        (multi : Bool) (name : Text) (rows : Option (List (Row F))) (ids : ℕ) (page : Page F)
        (s : Share F)
        → AllSound F cfg.max_points page.shares
        → IsSound F cfg.max_points s
        → AllSound F cfg.max_points (with_share F cfg multi name rows ids page s).0.shares
    with_share-AllSound multi name none ids page s h t =
        insert-AllSound F cfg.max_points page.shares name s t h
    with_share-AllSound multi name (some rows) ids page s h t =
        insert-AllSound F cfg.max_points page.shares name _
          (update_share-IsSound F cfg multi name rows s pos t.trail) h

    update_user-AllSound :
        (multi : Bool) (name : Text) (rows : Option (List (Row F))) (page : Page F)
        → AllSound F cfg.max_points page.shares
        → AllSound F cfg.max_points (update_user F cfg multi name rows page).0.shares
    unfolding update_user
    update_user-AllSound multi name rows page h = elim (Option-cases (lookup name page.shares)) [
      | inl e ↦
          rw (e, update_user)
            (with_share-AllSound multi name rows (suc page.ids) page _ h (record {
              trail = new_share-IsTrail F (cfg.random_id page.ids);
              short = omega arith;
            }))
      | inr (s, e) ↦
          rw (e, update_user)
            (with_share-AllSound multi name rows page.ids page s h
              (lookup-AllSound F cfg.max_points page.shares name s h e))
    ]

    -- A property of the page that is kept by what comes next holds in any case.
    unless_thrown-shares :
        (k : Page F → Page F × Bool) (r : Page F × Bool)
        → AllSound F cfg.max_points r.0.shares
        → ((p : Page F)
            → AllSound F cfg.max_points p.shares
            → AllSound F cfg.max_points (k p).0.shares)
        → AllSound F cfg.max_points (unless_thrown F k r).0.shares
    unless_thrown-shares k (p, true) h keep = h
    unless_thrown-shares k (p, false) h keep = keep p h

    pub update_users-AllSound :
        (multi : Bool) (us : Dict (Option (List (Row F)))) (page : Page F)
        → AllSound F cfg.max_points page.shares
        → AllSound F cfg.max_points (update_users F cfg multi us page).0.shares
    unfolding update_users
    update_users-AllSound multi [] page h = h
    update_users-AllSound multi ((name, rows) ∷ us) page h =
        unless_thrown-shares (update_users F cfg multi us) _
          (update_user-AllSound multi name rows page h) (λ p. update_users-AllSound multi us p)

    centered-shares :
        (multi : Bool) (r : View F × Bool) (page : Page F)
        → (centered F multi r page).0.shares ≡ page.shares
    centered-shares multi (v, true) page = refl
    centered-shares multi (v, false) page = refl

    center-shares :
        (multi : Bool) (page : Page F) → (center F cfg multi page).0.shares ≡ page.shares
    unfolding center
    center-shares multi page = elim (Bool-cases (page.has_first && not page.has_initiated)) [
      | inl first ↦ rw (first, center) (centered-shares multi _ _)
      | inr later ↦ rw (later, center)
    ]

    finish-AllSound :
        (multi : Bool) (server_time : F.Num) (page : Page F)
        → AllSound F cfg.max_points page.shares
        → AllSound F cfg.max_points
            (finish F cfg multi page (mark_shares F cfg.stale server_time page.shares)).0.shares
    finish-AllSound multi server_time page h =
        let (d, e, k) = mark_shares-AllSound F cfg.max_points cfg.stale server_time page.shares h in
        rw e (rw (center-shares multi (record page { shares = d })) k)

    -- If every user's entry is a trail of at most `max_points` points, which is at least 1, it is
    -- so after any answer.
    pub apply-AllSound :
        (server_time : F.Num) (points : Points F) (page : Page F)
        → AllSound F cfg.max_points page.shares
        → AllSound F cfg.max_points (apply F cfg server_time points page).0.shares
    unfolding apply
    apply-AllSound server_time points page h =
        unless_thrown-shares
          (λ p. finish F cfg (is_multi F points) p (mark_shares F cfg.stale server_time p.shares)) _
          (update_users-AllSound (is_multi F points) (users_of F points) page h)
          (finish-AllSound (is_multi F points) server_time)
