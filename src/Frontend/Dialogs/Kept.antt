-- ===== src/Frontend/Dialogs/Kept.antt =====
-- `processUpdate` of frontend/main.js never removes an entry of `shares`.
use mathlib.Core.Option.{some-injective}
use go_hauk.Prelude.{
  if◌then◌else◌, Bool-cases, Text, text_eq, Dict, lookup, insert, lookup-insert, ℕ, ◌≡◌, refl, sym,
  ap, subst, ◌∙◌, inl, inr, Bool, true, false, not, ◌&&◌, Option, none, some, List, [], ◌∷◌, arith,
}
use go_hauk.Frontend.Number.{Float}
use go_hauk.Frontend.Trail.{Share, Row}
use go_hauk.Frontend.Staleness.{StaleConfig, mark_share, mark_shares, keep_going}
use go_hauk.Frontend.Shares.{View, auto_center}
use go_hauk.Frontend.Update.{
  Config, Page, Points, is_multi, users_of, with_share, pick, update_user, update_users,
  unless_thrown, center, centered, finish, apply,
}

module _ (F : Float) where
  -- An entry of `shares`.
  abbrev pub Found : Text → Dict (Share F) → Type 0
  Found u d = (e : Share F) × (lookup u d ≡ some e)

  Found-insert :
      (u name : Text) (t : Share F) (d : Dict (Share F)) → Found u d → Found u (insert name t d)
  Found-insert u name t d (e, w) = elim (Bool-cases (text_eq name u)) [
    | inl same ↦ (t, lookup-insert name u t d ∙ ap (λ b. if b then some t else lookup u d) same)
    | inr other ↦
        (e, lookup-insert name u t d ∙ ap (λ b. if b then some t else lookup u d) other ∙ w)
  ]

  -- The first entry, or one of the others.
  Found-cons :
      (u v : Text) (s t : Share F) (d n : Dict (Share F))
      → Found u ((v, s) ∷ d)
      → (Found u d → Found u n)
      → Found u ((v, t) ∷ n)
  unfolding lookup
  Found-cons u v s t d n (e, w) k = elim (Bool-cases (text_eq v u)) [
    | inl same ↦ (t, ap (λ b. if b then some t else lookup u n) same)
    | inr other ↦
        let (x, q) = k (e, sym (ap (λ b. if b then some s else lookup u d) other) ∙ w) in
        (x, ap (λ b. if b then some t else lookup u n) other ∙ q)
  ]

  Found-mark_shares :
      (cfg : StaleConfig F) (now : F.Num) (u : Text) (d m : Dict (Share F))
      → mark_shares F cfg now d ≡ some m
      → Found u d
      → Found u m
  unfolding mark_shares lookup
  Found-mark_shares cfg now u [] m e (s, w) = absurd (ground (arith))
  Found-mark_shares cfg now u ((v, s) ∷ d) m e f =
      go (mark_share F cfg now s) (mark_shares F cfg now d) e
        (λ n q. Found-mark_shares cfg now u d n q)
    where
      go :
          (o : Option (Share F)) (r : Option (Dict (Share F)))
          → keep_going F v o r ≡ some m
          → ((n : Dict (Share F)) → r ≡ some n → Found u d → Found u n)
          → Found u m
      go none r q k = absurd (ground (arith))
      go (some t) none q k = absurd (ground (arith))
      go (some t) (some n) q k =
          subst (Found u) (some-injective _ _ q) (Found-cons u v s t d n f (k n refl))

  module _ (cfg : Config F) where
    Found-update_user :
        (multi : Bool) (name : Text) (rows : Option (List (Row F))) (u : Text) (page : Page F)
        → Found u page.shares
        → Found u (update_user F cfg multi name rows page).0.shares
    unfolding update_user
    Found-update_user multi name rows u page f = go rows (lookup name page.shares)
      where
        put :
            (rs : Option (List (Row F))) (ids : ℕ) (s : Share F)
            → Found u (with_share F cfg multi name rs ids page s).0.shares
        put none ids s = Found-insert u name s page.shares f
        put (some rs) ids s = Found-insert u name _ page.shares f

        go :
            (rs : Option (List (Row F))) (o : Option (Share F))
            → Found u (pick F cfg multi name rs page o).0.shares
        go rs none = put rs _ _
        go rs (some s) = put rs _ s

    Found-update_users :
        (multi : Bool) (us : Dict (Option (List (Row F)))) (u : Text) (page : Page F)
        → Found u page.shares
        → Found u (update_users F cfg multi us page).0.shares
    unfolding update_users
    Found-update_users multi [] u page f = f
    Found-update_users multi ((name, rows) ∷ us) u page f =
        go (update_user F cfg multi name rows page) (Found-update_user multi name rows u page f)
          (λ p. Found-update_users multi us u p)
      where
        go :
            (r : Page F × Bool)
            → Found u r.0.shares
            → ((p : Page F) → Found u p.shares → Found u (update_users F cfg multi us p).0.shares)
            → Found u (unless_thrown F (update_users F cfg multi us) r).0.shares
        go (p, true) g k = g
        go (p, false) g k = k p g

    Found-center :
        (multi : Bool) (u : Text) (page : Page F)
        → Found u page.shares
        → Found u (center F cfg multi page).0.shares
    unfolding center
    Found-center multi u page f =
        go (page.has_first && not page.has_initiated)
          (auto_center F cfg.fit cfg.default_zoom page.shares page.view)
      where
        go :
            (b : Bool) (r : View F × Bool)
            → Found u
                (if b
                  then centered F multi r (record page { has_initiated = true; map_shown = true })
                  else (page, false)).0.shares
        go false r = f
        go true (v, true) = f
        go true (v, false) = f

    Found-finish :
        (multi : Bool) (u : Text) (page : Page F) (o : Option (Dict (Share F)))
        → Found u page.shares
        → ((m : Dict (Share F)) → o ≡ some m → Found u m)
        → Found u (finish F cfg multi page o).0.shares
    Found-finish multi u page none f h = f
    Found-finish multi u page (some d) f h =
        Found-center multi u (record page { shares = d }) (h d refl)

    pub Found-apply :
        (now : F.Num) (points : Points F) (u : Text) (page : Page F)
        → Found u page.shares
        → Found u (apply F cfg now points page).0.shares
    unfolding apply
    Found-apply now points u page f =
        go (update_users F cfg (is_multi F points) (users_of F points) page)
          (Found-update_users (is_multi F points) (users_of F points) u page f)
      where
        go :
            (r : Page F × Bool)
            → Found u r.0.shares
            → Found u
                (unless_thrown F
                  (λ p. finish F cfg (is_multi F points) p (mark_shares F cfg.stale now p.shares))
                  r).0.shares
        go (p, true) g = g
        go (p, false) g =
            Found-finish (is_multi F points) u p (mark_shares F cfg.stale now p.shares) g
              (λ m q. Found-mark_shares cfg.stale now u p.shares m q g)
