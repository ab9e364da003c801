-- ===== src/Server/Linkgen/Fair.antt =====
-- Every number is as likely as any other, if every byte is.
use mathlib.Core.Option.{some-injective}
use native.Mathlib.Nat.{
  div-add-mod', mul-add-mod_self_right, mod-eq_of_lt, suc-mul, div-lt_iff_lt-mul, mul-le-mul_right,
}
use go_hauk.Prelude.{
  ℕ, ◌+◌, ◌-◌, ◌*◌, ◌/◌, ◌%◌, ◌<◌, ◌≡◌, refl, sym, ap, ◌∙◌, ◌↔◌, true, some, List, ◌∷◌, arith,
}
use go_hauk.Server.Linkgen.{is_accepted, rand_int}

-- The bytes that are accepted are those below the largest multiple of `max` up to 256.
multiple : (max : ℕ) → 256 - 256 % max ≡ 256 / max * max
multiple max = omega (arith, div-add-mod' 256 max)

-- A byte that is read next gives the number `r` at once exactly if it is one of the `256 / max` bytes
-- `q * max + r`: every number below `max` is given by as many bytes as any other.
pub rand_int-fair :
    (max r b : ℕ) (bs : List ℕ)
    → r < max
    → ((is_accepted max b ≡ true) × (rand_int max (b ∷ bs) ≡ some (r, bs)))
      ↔ ((q : ℕ) × (q < 256 / max) × (b ≡ q * max + r))
unfolding rand_int
rand_int-fair max r b bs h = (
  λ (ok, e).
      let it : b % max ≡ r = ap (λ x. x.0) (some-injective _ _ (rw ok at e)) in
      let below : b < 256 / max * max = rw (← multiple max) (ground arith) in
      (b / max, (div-lt_iff_lt-mul (omega arith)).1 below, rw (← it) (sym (div-add-mod' b max))),
  λ (q, few, e).
      let it : b % max ≡ r = rw e (mul-add-mod_self_right q max r ∙ mod-eq_of_lt h) in
      let below : b < 256 - 256 % max =
        rw (multiple max) (omega (arith, mul-le-mul_right max few, suc-mul q max)) in
      let ok : is_accepted max b ≡ true = ground arith in (ok, rw (ok, it) refl),
)
