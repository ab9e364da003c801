-- ===== src/Frontend/Trail/Sound.antt =====
-- Entries whose trail is well formed and bounded, in the dictionary `shares`.
use mathlib.Core.Option.{some-injective}
use go_hauk.Prelude.{
  Bool-cases, length, Text, text_eq, Dict, lookup, insert, ℕ, ◌≤◌, ◌≡◌, subst, inl, inr, some, [],
  ◌∷◌,
}
use go_hauk.Frontend.Number.{Float}
use go_hauk.Frontend.Trail.{Share}
use go_hauk.Frontend.Trail.Order.{IsTrail}

module _ (F : Float) where
  -- A trail of at most `max_points` points.
  pub record IsSound (max_points : ℕ) (s : Share F) : Type 0 where
    pub trail : IsTrail F s
    pub short : length s.points ≤ max_points

  abbrev pub AllSound : ℕ → Dict (Share F) → Type 0
  AllSound n [] = Unit
  AllSound n ((u, s) ∷ d) = IsSound n s × AllSound n d

  pub lookup-AllSound :
      (n : ℕ) (d : Dict (Share F)) (name : Text) (s : Share F)
      → AllSound n d
      → lookup name d ≡ some s
      → IsSound n s
  unfolding lookup
  lookup-AllSound n [] name s h e = cc
  lookup-AllSound n ((u, t) ∷ d) name s h e = elim (Bool-cases (text_eq u name)) [
    | inl same ↦ subst (IsSound n) (some-injective _ _ (rw same at e)) h.0
    | inr other ↦ lookup-AllSound n d name s h.1 (rw other at e)
  ]

  pub insert-AllSound :
      (n : ℕ) (d : Dict (Share F)) (name : Text) (s : Share F)
      → IsSound n s
      → AllSound n d
      → AllSound n (insert name s d)
  unfolding insert
  insert-AllSound n [] name s k h = (k, tt)
  insert-AllSound n ((u, t) ∷ d) name s k h = elim (Bool-cases (text_eq u name)) [
    | inl same ↦ rw (same, insert) (k, h.1)
    | inr other ↦ rw (other, insert) (h.0, insert-AllSound n d name s k h.1)
  ]
