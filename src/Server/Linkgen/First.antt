-- ===== src/Server/Linkgen/First.antt =====
-- Which id the search of `Generate` returns.
use go_hauk.Prelude.{
  length, All, Text, ℕ, zero, suc, ◌<◌, ◌≡◌, refl, sym, ap, ◌∙◌, ◌↔◌, Bool, true, false, Option,
  none, some, List, [], ◌∷◌, ◌++◌, arith,
}
use mathlib.Core.Option.{some-injective}
use go_hauk.Server.Linkgen.{LinkStyle, Made, and_then, made, make, if_unused, generate}

-- The ids that are made from the bytes one after another, whether they are in use or not.
unfoldable pub attempts : LinkStyle → ℕ → List ℕ → Made (List Text)
attempts style zero bs = some ([], bs)
attempts style (suc n) bs =
    and_then (make style bs) (λ s cs. made (λ ss. s ∷ ss) (attempts style n cs))

-- The ids made before the last one are in use, and the last one is not.
abbrev pub IsFirst : (Text → Option Bool) → LinkStyle → ℕ → List ℕ → Text → List ℕ → Type 0
IsFirst exists style fuel bs s rest =
    (used : List Text) × (length used < fuel)
    × (attempts style (suc (length used)) bs ≡ some (used ++ s ∷ [], rest))
    × All (λ u. exists u ≡ some true) used
    × (exists s ≡ some false)

attempts-cons :
    (style : LinkStyle) (n : ℕ) (bs cs rest : List ℕ) (t : Text) (ts : List Text)
    → make style bs ≡ some (t, cs)
    → attempts style n cs ≡ some (ts, rest)
    → attempts style (suc n) bs ≡ some (t ∷ ts, rest)
unfolding attempts
attempts-cons style n bs cs rest t ts e q = rw (e, and_then) (rw (q, made) refl)

made-inverse :
    (t u : Text) (us : List Text) (rest : List ℕ) (m : Made (List Text))
    → made (λ ts. t ∷ ts) m ≡ some (u ∷ us, rest)
    → (t ≡ u) × (m ≡ some (us, rest))
made-inverse t u us rest none e = absurd (ground (arith))
made-inverse t u us rest (some (ts, bs)) e = (cc, cc)

attempts-inverse :
    (style : LinkStyle) (n : ℕ) (bs rest : List ℕ) (u : Text) (us : List Text)
    → attempts style (suc n) bs ≡ some (u ∷ us, rest)
    → (cs : List ℕ) × (make style bs ≡ some (u, cs)) × (attempts style n cs ≡ some (us, rest))
unfolding attempts
attempts-inverse style n bs rest u us e = go (make style bs) e
  where
    go :
        (m : Made Text)
        → and_then m (λ s cs. made (λ ss. s ∷ ss) (attempts style n cs)) ≡ some (u ∷ us, rest)
        → (cs : List ℕ) × (m ≡ some (u, cs)) × (attempts style n cs ≡ some (us, rest))
    go none q = absurd (ground (arith))
    go (some (t, cs)) q =
        let (same, left) = made-inverse t u us rest (attempts style n cs) q in
        (cs, ap (λ x. some (x, cs)) same, left)

module _ (exists : Text → Option Bool) (style : LinkStyle) where
  -- One round of the loop that gives an id, for what was made and what the store says of it.
  round-IsFirst :
      (fuel : ℕ) (bs : List ℕ) (s : Text) (rest : List ℕ)
      → ((cs : List ℕ)
          → generate exists style fuel cs ≡ some (s, rest)
          → IsFirst exists style fuel cs s rest)
      → (m : Made Text) → make style bs ≡ m
      → and_then m (λ t cs. if_unused (exists t) (some (t, cs)) (generate exists style fuel cs))
        ≡ some (s, rest)
      → IsFirst exists style (suc fuel) bs s rest
  unfolding attempts
  round-IsFirst fuel bs s rest ih none e q = absurd (ground (arith))
  round-IsFirst fuel bs s rest ih (some (t, cs)) e q = go (exists t) refl q
    where
      go :
          (o : Option Bool)
          → exists t ≡ o
          → if_unused o (some (t, cs)) (generate exists style fuel cs) ≡ some (s, rest)
          → IsFirst exists style (suc fuel) bs s rest
      go none u z = absurd (ground (arith))
      go (some true) u z =
          let (used, few, made_all, taken, free) = ih cs z in
          (
            t ∷ used,
            omega (arith),
            attempts-cons style (suc (length used)) bs cs rest t (used ++ s ∷ []) e made_all,
            (u, taken),
            free,
          )
      go (some false) u z =
          let same : t ≡ s = cc in
          let left : cs ≡ rest = cc in
          ([], omega (arith), last_one same left, tt, ap exists (sym same) ∙ u)
        where
          last_one : t ≡ s → cs ≡ rest → attempts style 1 bs ≡ some (s ∷ [], rest)
          last_one same left =
              attempts-cons style 0 bs cs cs t [] e refl
              ∙ ap (λ x. some (t ∷ [], x)) left
              ∙ ap (λ x. some (x ∷ [], rest)) same

  -- The search returns an id, within a number of rounds, exactly if it is the first of the ids made one
  -- after another that is not in use, and so many rounds reach it.
  pub generate-IsFirst :
      (fuel : ℕ) (bs : List ℕ) (s : Text) (rest : List ℕ)
      → (generate exists style fuel bs ≡ some (s, rest)) ↔ IsFirst exists style fuel bs s rest
  unfolding generate attempts
  generate-IsFirst fuel bs s rest = (returned fuel bs, found fuel bs)
    where
      returned :
          (fuel : ℕ) (bs : List ℕ)
          → generate exists style fuel bs ≡ some (s, rest)
          → IsFirst exists style fuel bs s rest
      returned zero bs e = absurd (ground (arith))
      returned (suc fuel) bs e = round-IsFirst fuel bs s rest (returned fuel) (make style bs) refl e

      found :
          (fuel : ℕ) (bs : List ℕ)
          → IsFirst exists style fuel bs s rest
          → generate exists style fuel bs ≡ some (s, rest)
      found zero bs (used, few, made_all, taken, free) = absurd (omega (arith))
      found (suc fuel) bs ([], few, made_all, taken, free) =
          let (cs, m, none_left) = attempts-inverse style 0 bs rest s [] made_all in
          let left : cs ≡ rest = ap (λ x. x.1) (some-injective _ _ none_left) in
          rw (m, and_then) (rw (free, if_unused) (ap (λ x. some (s, x)) left))
      found (suc fuel) bs (u ∷ used, few, made_all, taken, free) =
          let (cs, m, others) =
            attempts-inverse style (suc (length used)) bs rest u (used ++ s ∷ []) made_all in
          rw (m, and_then)
            (rw (taken.0, if_unused) (found fuel cs (used, omega (arith), others, taken.1, free)))
