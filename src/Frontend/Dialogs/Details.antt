-- ===== src/Frontend/Dialogs/Details.antt =====
-- The buttons of the details, in every state that is reached.
use go_hauk.Prelude.{
  last?, Text, text_eq_iff, Dict, true-false, lookup, ◌≡◌, refl, sym, subst, ◌∙◌, ◌⊎◌, inl, inr,
  Bool, true, false, Option, none, some, List, [], ◌∷◌,
}
use go_hauk.Frontend.Number.{Float}
use go_hauk.Frontend.Locate.{user}
use go_hauk.Frontend.Trail.{Share, Point}
use go_hauk.Frontend.Shares.{View, follow, pan_to, follow_share}
use go_hauk.Frontend.Update.{Config, Page, Points, apply}
use go_hauk.Frontend.Dialogs.{
  Dialogs, Screen, show_message, dismiss_message, open_details, close_list, close_details, on_radar,
  finish_handler, navigate_to, entries, user_name, on_marker, on_follow, on_navigate, on_show_all,
}
use go_hauk.Frontend.Dialogs.Kept.{Found, Found-apply}

module _ (F : Float) where
  -- The details are shown only for a user that `shares` has.
  unfoldable IsKnown : Dialogs → Dict (Share F) → Type 0
  IsKnown d shares =
      ((d.details_shown ≡ false) × (d.user ≡ none))
      ⊎ ((u : Text) × (d.user ≡ some u) × Found F u shares)

  only_entry :
      (d : Dict (Share F)) (g : Dialogs) → IsKnown g d → IsKnown (on_radar (entries F d) g) d
  unfolding IsKnown on_radar lookup
  only_entry [] g k = k
  only_entry ((u, s) ∷ []) g k = inr (u, refl, (s, rw ((text_eq_iff u u).1 refl) refl))
  only_entry ((u, s) ∷ (v, t) ∷ d) g k = k

  finish_handler-IsKnown :
      (k : Dialogs → Dialogs) (r : View F × Bool) (s : Screen F)
      → IsKnown s.dialogs s.shares
      → IsKnown (k s.dialogs) s.shares
      → IsKnown (finish_handler F k r s).0.dialogs (finish_handler F k r s).0.shares
  finish_handler-IsKnown k (v, true) s h g = h
  finish_handler-IsKnown k (v, false) s h g = g

  closed-IsKnown :
      (d : Dialogs) (shares : Dict (Share F)) → IsKnown d shares → IsKnown (close_details d) shares
  unfolding IsKnown close_details
  closed-IsKnown d shares (inl k) = inl (refl, k.1)
  closed-IsKnown d shares (inr k) = inr k

  list_closed-IsKnown :
      (d : Dialogs) (shares : Dict (Share F)) → IsKnown d shares → IsKnown (close_list d) shares
  unfolding IsKnown close_list
  list_closed-IsKnown d shares k = k

  navigate_to-IsKnown :
      (o : Option (Share F)) (s : Screen F)
      → IsKnown s.dialogs s.shares
      → IsKnown (navigate_to F o s).0.dialogs (navigate_to F o s).0.shares
  navigate_to-IsKnown none s k = k
  navigate_to-IsKnown (some e) s k = closed-IsKnown s.dialogs s.shares k

  abbrev pub has_no_points : List (Point F) → Bool
  has_no_points [] = true
  has_no_points (p ∷ ps) = false

  pan_to-throws :
      (p : Point F) (ps : List (Point F)) (v : View F) → (pan_to F (last? (p ∷ ps)) v).1 ≡ false
  pan_to-throws p [] v = refl
  pan_to-throws p (q ∷ ps) v = pan_to-throws q ps v

  finish_handler-throws :
      (k : Dialogs → Dialogs) (r : View F × Bool) (s : Screen F) → (finish_handler F k r s).1 ≡ r.1
  finish_handler-throws k (v, true) s = refl
  finish_handler-throws k (v, false) s = refl

  follow_share-throws :
      (e : Share F) (v : View F) → (follow_share F (some e) v).1 ≡ has_no_points e.points
  follow_share-throws e v = go e.points
    where
      go :
          (ps : List (Point F))
          → (pan_to F (last? ps) (record v { following = user e.id })).1 ≡ has_no_points ps
      go [] = refl
      go (p ∷ ps) = pan_to-throws p ps _

  module _ (cfg : Config F) where
    abbrev pub with_page : Screen F → Page F → Screen F
    with_page s p = record s { shares = p.shares; view = p.view }

    -- What the viewer may do, in any order, while answers arrive and the map is moved.
    pub data Reach : Screen F → Type 0 where
      closed :
          (s : Screen F)
          → s.shares ≡ []
          → s.dialogs.details_shown ≡ false
          → s.dialogs.user ≡ none
          → Reach s
      answer :
          {s : Screen F} (now : F.Num) (points : Points F) (page : Page F)
          → Reach s
          → page.shares ≡ s.shares
          → page.view ≡ s.view
          → Reach (with_page s (apply F cfg now points page).0)
      moved : {s : Screen F} (v : View F) → Reach s → Reach (record s { view = v })
      message :
          {s : Screen F} (title body : Text)
          → Reach s
          → Reach (record s { dialogs = show_message title body s.dialogs })
      dismissed :
          {s : Screen F} → Reach s → Reach (record s { dialogs = dismiss_message s.dialogs })
      radar :
          {s : Screen F}
          → Reach s
          → Reach (record s { dialogs = on_radar (entries F s.shares) s.dialogs })
      chosen :
          {s : Screen F} (u : Text)
          → Reach s
          → Found F u s.shares
          → Reach (record s { dialogs = open_details u s.dialogs })
      marker_clicked :
          {s : Screen F} (u : Text) → Reach s → Found F u s.shares → Reach (on_marker F u s).0
      follows : {s : Screen F} → Reach s → Reach (on_follow F s).0
      navigates : {s : Screen F} → Reach s → Reach (on_navigate F s).0
      shows_all : {s : Screen F} → Reach s → Reach (on_show_all F cfg.fit cfg.default_zoom s).0
      list_closed : {s : Screen F} → Reach s → Reach (record s { dialogs = close_list s.dialogs })
      details_closed :
          {s : Screen F} → Reach s → Reach (record s { dialogs = close_details s.dialogs })

    Reach-IsKnown : (s : Screen F) → Reach s → IsKnown s.dialogs s.shares
    unfolding IsKnown show_message dismiss_message open_details on_marker on_follow on_navigate
        on_show_all
    Reach-IsKnown s (closed _ e h n) = inl (h, n)
    Reach-IsKnown _ (answer now points page r e _) = elim (Reach-IsKnown _ r) [
      | inl k ↦ inl k
      | inr (u, q, f) ↦
          inr (u, q, Found-apply F cfg now points u page (subst (Found F u) (sym e) f))
    ]
    Reach-IsKnown _ (moved v r) = Reach-IsKnown _ r
    Reach-IsKnown _ (message title body r) = Reach-IsKnown _ r
    Reach-IsKnown _ (dismissed r) = Reach-IsKnown _ r
    Reach-IsKnown _ (radar r) = only_entry _ _ (Reach-IsKnown _ r)
    Reach-IsKnown _ (chosen u r f) = inr (u, refl, f)
    Reach-IsKnown _ (marker_clicked {s = d} u r f) =
        let k = Reach-IsKnown _ r in finish_handler-IsKnown (λ g. g) _ d k k
    Reach-IsKnown _ (follows {s = d} r) =
        let k = Reach-IsKnown _ r in
        finish_handler-IsKnown close_details _ d k (closed-IsKnown d.dialogs d.shares k)
    Reach-IsKnown _ (navigates r) = navigate_to-IsKnown _ _ (Reach-IsKnown _ r)
    Reach-IsKnown _ (shows_all {s = d} r) =
        let k = Reach-IsKnown _ r in
        finish_handler-IsKnown close_list _ d k (list_closed-IsKnown d.dialogs d.shares k)
    Reach-IsKnown _ (list_closed {s = d} r) =
        list_closed-IsKnown d.dialogs d.shares (Reach-IsKnown _ r)
    Reach-IsKnown _ (details_closed {s = d} r) =
        closed-IsKnown d.dialogs d.shares (Reach-IsKnown _ r)

    -- In every state that the page reaches in which the details of a user are shown, the user has an entry;
    -- the button "follow" throws exactly if the entry has no points, and "navigate" never throws.
    pub on_follow_throws :
        (s : Screen F)
        → Reach s
        → s.dialogs.details_shown ≡ true
        → (u : Text) × (e : Share F) × (s.dialogs.user ≡ some u)
          × (lookup u s.shares ≡ some e)
          × ((on_follow F s).1 ≡ has_no_points e.points)
          × ((on_navigate F s).1 ≡ false)
    unfolding IsKnown on_follow on_navigate follow
    on_follow_throws s r shown = elim (Reach-IsKnown s r) [
      | inl k ↦ absurd (true-false (sym shown ∙ k.0))
      | inr (u, q, (e, w)) ↦ (
        u,
        e,
        q,
        w,
        finish_handler-throws close_details (follow F (user_name s.dialogs.user) s.shares s.view) s
            ∙ rw (q, w) (follow_share-throws e s.view),
        rw (q, w) refl,
      )
    ]
