-- ===== src/Frontend/Trail/Pruned.antt =====
-- Pruning keeps the end of the trail, and its lines.
use go_hauk.Prelude.{
  ltb, ltb→lt, Bool-cases, length, take, drop, last?, length-drop, ℕ, zero, suc, ◌-◌, ◌≤◌, ◌<◌, ◌≡◌,
  refl, ap, ◌∙◌, inl, inr, Option, none, some, List, [], ◌∷◌, ◌++◌, arith,
}
use go_hauk.Frontend.Number.{Float}
use go_hauk.Frontend.Trail.{Line, Point, Share, remove_line, remove_lines, prune}
use go_hauk.Frontend.Trail.Order.{line_id, line_ids, Connected, IsTrail}

last?-drop {ℓ} : {A : Type ℓ} (n : ℕ) (xs : List A) → n < length xs → last? (drop n xs) ≡ last? xs
last?-drop zero xs h = refl
last?-drop (suc n) [] h = elim h [ ]
last?-drop (suc n) (x ∷ []) h = absurd (omega arith)
last?-drop (suc n) (x ∷ y ∷ xs) h = last?-drop n (y ∷ xs) (omega arith)

module _ (F : Float) where
  Connected-drop : (n : ℕ) (ps : List (Point F)) → Connected F ps → Connected F (drop n ps)
  Connected-drop zero ps c = c
  Connected-drop (suc n) [] c = tt
  Connected-drop (suc zero) (p ∷ []) c = tt
  Connected-drop (suc (suc n)) (p ∷ []) c = tt
  Connected-drop (suc n) (p ∷ q ∷ ps) c = Connected-drop n (q ∷ ps) c.1

  remove_line-line_id :
      (l : Option (Line F)) (ids : List ℕ) → remove_line F l (line_id F l ++ ids) ≡ ids
  remove_line-line_id none ids = refl
  remove_line-line_id (some l) ids = ground arith

  remove_lines-take :
      (n : ℕ) (ps : List (Point F))
      → remove_lines F (take n ps) (line_ids F ps) ≡ line_ids F (drop n ps)
  remove_lines-take zero ps = refl
  remove_lines-take (suc n) [] = refl
  remove_lines-take (suc n) (p ∷ ps) =
      ap (remove_lines F (take n ps)) (remove_line-line_id p.line (line_ids F ps))
      ∙ remove_lines-take n ps

  -- After pruning a trail to `max_points` points, at least 1, there are at most so many, the latest
  -- ones in their order: it is still a trail with the same end, and the lines of the points that
  -- went are off the map.
  pub prune-IsTrail :
      (max_points : ℕ) (s : Share F)
      → 1 ≤ max_points
      → IsTrail F s
      → IsTrail F (prune F max_points s)
        × (length (prune F max_points s).points ≤ max_points)
        × (last? (prune F max_points s).points ≡ last? s.points)
        × (drop (length s.points - max_points) s.points ≡ (prune F max_points s).points)
  unfolding prune
  prune-IsTrail max_points s pos h = elim (Bool-cases (ltb max_points (length s.points))) [
    | inl over ↦
        let more : max_points < length s.points = ltb→lt max_points (length s.points) over in
        let surplus = length s.points - max_points in
        let end = last?-drop surplus s.points (omega arith) in
        rw (over, prune)
          (
            record {
              connected = Connected-drop surplus s.points h.connected;
              marker = rw end h.marker;
              circle = h.circle;
              face = h.face;
              drawn = rw h.drawn (remove_lines-take surplus s.points);
            },
            omega (arith, length-drop {0} surplus s.points),
            end,
            refl,
          )
    | inr within ↦
        let none_over : length s.points - max_points ≡ 0 = ground arith in
        rw (within, none_over, prune) (h, ground arith, refl, refl)
  ]
