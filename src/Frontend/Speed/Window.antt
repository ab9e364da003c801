-- ===== src/Frontend/Speed/Window.antt =====
-- Which stretch of the trail the speed is taken from.
use mathlib.Core.List.{reverse, reverse-append}
use go_hauk.Prelude.{
  if◌then◌else◌, Bool-cases, length, get_elem?, take, ℕ, zero, suc, ◌≤◌, ◌<◌, ◌≡◌, refl, ap, ◌∙◌,
  inl, inr, true, some, List, [], ◌∷◌, ◌++◌, arith,
}
use go_hauk.Frontend.Number.{Float, le}
use go_hauk.Frontend.Trail.{Point}
use go_hauk.Frontend.Speed.{segment, segment?, window}

module _ (F : Float) where
  -- The segments of a trail, from its start.
  abbrev pub segments : List (Point F) → List (F.Num × F.Num)
  segments [] = []
  segments (p ∷ []) = []
  segments (p ∷ q ∷ ps) = segment F p q ∷ segments (q ∷ ps)

  -- All but the first point.
  abbrev pub rest : List (Point F) → List (Point F)
  rest [] = []
  rest (p ∷ ps) = ps

  -- Adds segments up as long as their time does not exceed `delta`.
  unfoldable pub spend : F.Num → List (F.Num × F.Num) → F.Num × F.Num → F.Num × F.Num
  spend delta [] acc = acc
  spend delta ((d_time, d) ∷ ss) (time, dist) =
      if le F (F.add time d_time) delta
      then spend delta ss (F.add time d_time, F.add dist d)
      else (time, dist)

  abbrev Last2 : ℕ → List (Point F) → Type 0
  Last2 k ps =
      (a : F.Num × F.Num) × (segment? F (get_elem? ps k) (get_elem? ps (suc k)) ≡ some a)
      × (segments (take (suc (suc k)) ps) ≡ segments (take (suc k) ps) ++ a ∷ [])

  segments-take : (k : ℕ) (ps : List (Point F)) → suc k < length ps → Last2 k ps
  segments-take k [] h = elim h [ ]
  segments-take k (p ∷ []) h = absurd (omega arith)
  segments-take zero (p ∷ q ∷ ps) h = (segment F p q, refl, refl)
  segments-take (suc k) (p ∷ q ∷ ps) h =
      let (a, e, f) = segments-take k (q ∷ ps) (omega arith) in
      (a, e, ap (λ t. segment F p q ∷ t) f)

  window-spend_from :
      (delta : F.Num) (p : Point F) (ps : List (Point F)) (n : ℕ) (acc : F.Num × F.Num)
      → n ≤ length ps
      → window F delta (suc n) (p ∷ ps) acc ≡ spend delta (reverse (segments (take n ps))) acc
  unfolding window spend
  window-spend_from delta p ps zero acc h = refl
  window-spend_from delta p [] (suc zero) acc h = refl
  window-spend_from delta p (q ∷ ps) (suc zero) acc h = refl
  window-spend_from delta p ps (suc (suc k)) (time, dist) h =
      let (a, e, f) = segments-take k ps (omega arith) in
      rw (f, reverse-append (segments (take (suc k) ps)) (a ∷ []), e, window)
        (ap (λ (r : F.Num × F.Num). if le F (F.add time a.0) delta then r else (time, dist))
          (window-spend_from delta p ps (suc k) (F.add time a.0, F.add dist a.1) (omega arith)))

  take-length : (ps : List (Point F)) → take (length ps) ps ≡ ps
  take-length [] = refl
  take-length (p ∷ ps) = rw (take-length ps)

  -- The loop adds up the latest segments of the trail as long as their time does not exceed `delta`,
  -- but never the first segment of the trail.
  pub window-spend :
      (delta : F.Num) (ps : List (Point F)) (acc : F.Num × F.Num)
      → window F delta (length ps) ps acc ≡ spend delta (reverse (segments (rest ps))) acc
  unfolding window spend
  window-spend delta [] acc = refl
  window-spend delta (p ∷ ps) acc =
      window-spend_from delta p ps (length ps) acc (omega arith)
      ∙ ap (λ t. spend delta (reverse (segments t)) acc) (take-length ps)

  spend-le :
      (delta : F.Num) (ss : List (F.Num × F.Num)) (acc : F.Num × F.Num)
      → le F acc.0 delta ≡ true
      → le F (spend delta ss acc).0 delta ≡ true
  unfolding spend
  spend-le delta [] acc h = h
  spend-le delta ((d_time, d) ∷ ss) (time, dist) h =
      elim (Bool-cases (le F (F.add time d_time) delta)) [
        | inl fits ↦ rw (fits, spend) (spend-le delta ss (F.add time d_time, F.add dist d) fits)
        | inr over ↦ rw (over, spend) h
      ]
