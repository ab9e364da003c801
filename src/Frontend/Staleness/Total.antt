-- ===== src/Frontend/Staleness/Total.antt =====
-- The loop over all users runs to its end.
use go_hauk.Prelude.{
  Bool-cases, Option-cases, last?, Text, Dict, ℕ, ◌≡◌, refl, sym, subst, ◌∙◌, inl, inr, Option,
  none, some, [], ◌∷◌,
}
use go_hauk.Frontend.Number.{Float}
use go_hauk.Frontend.Geometry.{Place}
use go_hauk.Frontend.Staleness.{
  StaleConfig, set_color, mark_dead, mark_alive, mark_share, mark_shares, is_stale,
}
use go_hauk.Frontend.Trail.{Point, Circle, Face, Share}
use go_hauk.Frontend.Trail.Sound.{AllSound}
use go_hauk.Frontend.Trail.Order.{IsTrail, Round, Together, end_place}

module _ (F : Float) where
  module _ (max_points : ℕ) (cfg : StaleConfig F) (server_time : F.Num) where
    abbrev Marked : Share F → Type 0
    Marked s =
        (u : Share F) × (mark_share F cfg server_time s ≡ some u)
        × IsTrail F u
        × (u.points ≡ s.points)

    Round-set_color :
        (c : Text) (k : Option (Circle F)) (m : Option (Place F))
        → Round F k m
        → Round F (set_color F c k) m
    Round-set_color c none m h = tt
    Round-set_color c (some k) m h = h

    faced :
        (f : Face F) (m : Option (Place F)) → Together F (some f) m → (n : Place F) × (m ≡ some n)
    faced f none h = absurd h
    faced f (some n) h = (n, refl)

    ended :
        (l : Option (Point F)) (n : Place F) → end_place F l ≡ some n → (p : Point F) × (l ≡ some p)
    ended none n e = cc
    ended (some p) n e = (p, refl)

    mark_face-Marked :
        (s : Share F) (f : Face F) (n : Place F) (p : Point F)
        → IsTrail F s
        → s.face ≡ some f
        → s.marker ≡ some n
        → last? s.points ≡ some p
        → Marked s
    unfolding mark_share
    mark_face-Marked s f n p h e em l = elim (Bool-cases (is_stale F cfg server_time p)) [
      | inl stale ↦ (
        mark_dead F cfg server_time p f s,
        rw (e, l, stale, mark_share),
        record {
          connected = h.connected;
          marker = h.marker;
          circle = Round-set_color _ s.circle s.marker h.circle;
          face = rw em tt;
          drawn = h.drawn;
        },
        refl,
      )
      | inr seen ↦ (
        mark_alive F f s,
        rw (e, l, seen, mark_share),
        record {
          connected = h.connected;
          marker = h.marker;
          circle = Round-set_color _ s.circle s.marker h.circle;
          face = rw em tt;
          drawn = h.drawn;
        },
        refl,
      )
    ]

    mark_share-Marked : (s : Share F) → IsTrail F s → Marked s
    unfolding mark_share
    mark_share-Marked s h = elim (Option-cases s.face) [
      | inl e ↦ (s, rw (e, mark_share), h, refl)
      | inr (f, e) ↦
          let (n, en) = faced f s.marker (subst (λ g. Together F g s.marker) e h.face) in
          let (p, ep) = ended (last? s.points) n (sym h.marker ∙ en) in
          mark_face-Marked s f n p h e en ep
    ]

    -- Over trails of bounded length the loop throws at no user, and leaves such trails.
    pub mark_shares-AllSound :
        (d : Dict (Share F))
        → AllSound F max_points d
        → (m : Dict (Share F)) × (mark_shares F cfg server_time d ≡ some m)
          × AllSound F max_points m
    unfolding mark_shares
    mark_shares-AllSound [] h = ([], refl, tt)
    mark_shares-AllSound ((u, s) ∷ d) h =
        let (t, et, ht, same) = mark_share-Marked s h.0.trail in
        let (m, em, hm) = mark_shares-AllSound d h.1 in
        (
          (u, t) ∷ m,
          rw (et, em, mark_shares),
          (record { trail = ht; short = rw same h.0.short }, hm),
        )
