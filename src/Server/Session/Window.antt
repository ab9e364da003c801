-- ===== src/Server/Session/Window.antt =====
-- A session keeps the latest points.
use mathlib.Core.List.{append-nil, append_assoc}
use go_hauk.Prelude.{
  ltb, Bool-cases, length, drop, length-append, length-drop, ℕ, zero, suc, ◌+◌, ◌-◌, ◌≤◌, ◌≡◌, refl,
  ap, ◌∙◌, inl, inr, List, [], ◌∷◌, ◌++◌, arith,
}
use go_hauk.Frontend.Number.{Float}
use go_hauk.Server.Session.{Cell, Session, add_point, add_points}

-- The last `n` items of a list, or all if there are fewer.
abbrev pub suffix {ℓ} : {A : Type ℓ} → ℕ → List A → List A
suffix n xs = drop (length xs - n) xs

drop-append {ℓ} :
    {A : Type ℓ} (n : ℕ) (xs ys : List A) → n ≤ length xs → drop n (xs ++ ys) ≡ drop n xs ++ ys
drop-append zero xs ys h = refl
drop-append (suc n) [] ys h = absurd (omega arith)
drop-append (suc n) (x ∷ xs) ys h = drop-append n xs ys (omega arith)

drop_nil {ℓ} : {A : Type ℓ} (n : ℕ) → ◌≡◌ {A = List A} [] (drop n [])
drop_nil zero = refl
drop_nil (suc n) = refl

drop-drop {ℓ} : {A : Type ℓ} (m n : ℕ) (xs : List A) → drop m (drop n xs) ≡ drop (n + m) xs
drop-drop m zero xs = ap (λ k. drop k xs) (omega arith)
drop-drop zero (suc n) [] = drop_nil (suc n + zero)
drop-drop (suc m) (suc n) [] = drop_nil (suc n + suc m)
drop-drop m (suc n) (x ∷ xs) =
    drop-drop m n xs ∙ ap (λ k. drop k (x ∷ xs)) {x = suc (n + m)} (omega arith)

-- What is left out of the suffix at first is left out at the end.
suffix-append {ℓ} :
    {A : Type ℓ} (n : ℕ) (xs ys : List A) → suffix n (suffix n xs ++ ys) ≡ suffix n (xs ++ ys)
suffix-append n xs ys =
    let k = length xs - n in
    let len : length (suffix n xs ++ ys) - n ≡ length (xs ++ ys) - n - k =
      omega (arith, length-append (suffix n xs) ys, length-append xs ys, length-drop k xs) in
    let sum : k + (length (xs ++ ys) - n - k) ≡ length (xs ++ ys) - n =
      omega (arith, length-append xs ys) in
    rw (
      len,
      ← drop-append k xs ys (omega arith),
      drop-drop (length (xs ++ ys) - n - k) k (xs ++ ys),
      sum,
    )

module _ (F : Float) where
  add_point-suffix :
      (p : List (Cell F)) (s : Session F)
      → (add_point F p s).points ≡ suffix s.max_pts (s.points ++ p ∷ [])
  unfolding add_point
  add_point-suffix p s = elim (Bool-cases (ltb s.max_pts (length (s.points ++ p ∷ [])))) [
    | inl long ↦ rw long
    | inr short ↦
        let none_off : length (s.points ++ p ∷ []) - s.max_pts ≡ 0 = ground arith in
        rw (short, none_off)
  ]

  pub add_point-short :
      (p : List (Cell F)) (s : Session F) → length (add_point F p s).points ≤ s.max_pts
  add_point-short p s =
      let points = s.points ++ p ∷ [] in
      rw (add_point-suffix p s) (omega (arith, length-drop (length points - s.max_pts) points))

  -- After any points were sent to a session of at most `max_pts` points, it holds the last
  -- `max_pts` of those that it had and those that were sent, in their order.
  pub add_points-suffix :
      (ps : List (List (Cell F))) (s : Session F)
      → length s.points ≤ s.max_pts
      → (add_points F ps s).points ≡ suffix s.max_pts (s.points ++ ps)
  unfolding add_points
  add_points-suffix [] s h =
      let none_off : length (s.points ++ []) - s.max_pts ≡ 0 =
        omega (arith, length-append s.points []) in
      rw (none_off, append-nil s.points)
  add_points-suffix (p ∷ ps) s h =
      add_points-suffix ps (add_point F p s) (add_point-short p s)
      ∙ rw (
        add_point-suffix p s,
        suffix-append s.max_pts (s.points ++ p ∷ []) ps,
        append_assoc s.points (p ∷ []) ps,
      )
