-- ===== src/Frontend/Update/Throws.antt =====
-- Which answers end `processUpdate` with an exception.
use go_hauk.Prelude.{
  Bool-cases, Option-cases, Text, Dict, lookup, ℕ, suc, ◌≤◌, ◌≡◌, refl, ◌∙◌, inl, inr, Bool, true,
  false, ◌||◌, Option, none, some, List, [], ◌∷◌,
}
use go_hauk.Frontend.Number.{Float}
use go_hauk.Frontend.Trail.{Row, Share}
use go_hauk.Frontend.Trail.Sound.{AllSound}
use go_hauk.Frontend.Staleness.{mark_shares}
use go_hauk.Frontend.Staleness.Total.{mark_shares-AllSound}
use go_hauk.Frontend.Update.{
  Config, Page, Points, is_multi, users_of, with_share, update_user, update_users, unless_thrown,
  finish, center, apply,
}
use go_hauk.Frontend.Update.Invariant.{update_users-AllSound}

module _ (F : Float) where
  abbrev pub is_null : Option (List (Row F)) → Bool
  is_null none = true
  is_null (some rows) = false

  -- Some user has `null` in the place of the points.
  abbrev pub has_null : Dict (Option (List (Row F))) → Bool
  has_null [] = false
  has_null ((name, rows) ∷ us) = is_null rows || has_null us

  module _ (cfg : Config F) where
    -- The loop leaves `hasInitiated` alone.
    record Round (is_thrown was_initiated : Bool) (r : Page F × Bool) : Type 0 where
      pub thrown : r.1 ≡ is_thrown
      pub initiated : r.0.has_initiated ≡ was_initiated

    with_share-Round :
        (multi : Bool) (name : Text) (rows : Option (List (Row F))) (ids : ℕ) (page : Page F)
        (s : Share F)
        → Round (is_null rows) page.has_initiated (with_share F cfg multi name rows ids page s)
    with_share-Round multi name none ids page s = record { thrown = refl; initiated = refl }
    with_share-Round multi name (some rows) ids page s = record { thrown = refl; initiated = refl }

    update_user-Round :
        (multi : Bool) (name : Text) (rows : Option (List (Row F))) (page : Page F)
        → Round (is_null rows) page.has_initiated (update_user F cfg multi name rows page)
    unfolding update_user
    update_user-Round multi name rows page = elim (Option-cases (lookup name page.shares)) [
      | inl e ↦ rw (e, update_user) (with_share-Round multi name rows (suc page.ids) page _)
      | inr (s, e) ↦ rw (e, update_user) (with_share-Round multi name rows page.ids page s)
    ]

    unless_thrown-Round :
        (k : Page F → Page F × Bool) (thrown later initiated : Bool) (r : Page F × Bool)
        → Round thrown initiated r
        → ((p : Page F) → Round later p.has_initiated (k p))
        → Round (thrown || later) initiated (unless_thrown F k r)
    unless_thrown-Round k thrown later initiated (p, true) h next = record {
      thrown = rw (← h.thrown) refl;
      initiated = h.initiated;
    }
    unless_thrown-Round k thrown later initiated (p, false) h next = record {
      thrown = rw (← h.thrown) ((next p).thrown);
      initiated = (next p).initiated ∙ h.initiated;
    }

    update_users-Round :
        (multi : Bool) (us : Dict (Option (List (Row F)))) (page : Page F)
        → Round (has_null us) page.has_initiated (update_users F cfg multi us page)
    unfolding update_users
    update_users-Round multi [] page = record { thrown = refl; initiated = refl }
    update_users-Round multi ((name, rows) ∷ us) page =
        unless_thrown-Round _ (is_null rows) (has_null us) page.has_initiated _
          (update_user-Round multi name rows page) (update_users-Round multi us)

    center-again :
        (multi : Bool) (page : Page F)
        → page.has_initiated ≡ true
        → (center F cfg multi page).1 ≡ false
    unfolding center
    center-again multi page h = elim (Bool-cases page.has_first) [
      | inl first ↦ rw (first, h, center)
      | inr none_yet ↦ rw (none_yet, center)
    ]

    finish-again :
        (multi : Bool) (server_time : F.Num) (page : Page F)
        → AllSound F cfg.max_points page.shares
        → page.has_initiated ≡ true
        → (finish F cfg multi page (mark_shares F cfg.stale server_time page.shares)).1 ≡ false
    finish-again multi server_time page h done =
        let (d, e, k) = mark_shares-AllSound F cfg.max_points cfg.stale server_time page.shares h in
        rw e (center-again multi (record page { shares = d }) done)

    unless_thrown-last :
        (k : Page F → Page F × Bool) (r : Page F × Bool)
        → (k r.0).1 ≡ false
        → (unless_thrown F k r).1 ≡ r.1
    unless_thrown-last k (p, true) h = refl
    unless_thrown-last k (p, false) h = h

    -- Once the map was centered, and while every user's entry is a trail of at most `max_points`
    -- points, which is at least 1, `processUpdate` throws exactly if the answer has `null` in the
    -- place of some user's points.
    pub apply_throws :
        (server_time : F.Num) (points : Points F) (page : Page F)
        → 1 ≤ cfg.max_points
        → AllSound F cfg.max_points page.shares
        → page.has_initiated ≡ true
        → (apply F cfg server_time points page).1 ≡ has_null (users_of F points)
    unfolding apply
    apply_throws server_time points page pos h done =
        let multi = is_multi F points in
        let us = users_of F points in
        let u = update_users-Round multi us page in
        let r = update_users F cfg multi us page in
        unless_thrown-last
          (λ p. finish F cfg multi p (mark_shares F cfg.stale server_time p.shares)) r
          (finish-again multi server_time r.0 (update_users-AllSound F cfg pos multi us page h)
            (u.initiated ∙ done))
        ∙ u.thrown
