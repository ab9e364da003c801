-- ===== src/Server/Linkgen/Search.antt =====
-- How many rounds of the search are worth while with a list of bytes.
use go_hauk.Prelude.{
  ltb, leb, Bool-cases, Option-cases, length, get_elem?, length-drop, Text, ℕ, zero, suc, ◌-◌, ◌%◌,
  ◌≤◌, ◌<◌, ◌≡◌, refl, sym, ◌∙◌, inl, inr, Bool, none, some, List, [], ◌∷◌, arith, Option,
}
use go_hauk.Server.Linkgen.{
  alpha_lower, alpha_mixed, alpha_upper, LinkStyle, link_4_plus_4_upper, link_4_plus_4_lower,
  link_4_plus_4_mixed, link_uuid_v4, link_16_hex, link_16_upper, link_16_lower, link_16_mixed,
  link_32_hex, link_32_upper, link_32_lower, link_32_mixed, Made, and_then, made, rand_int,
  random_string, hyphen, four_plus_four, read, hex_string, uuid_v4, make, generate,
}

-- Fewer bytes than so many are left.
abbrev Under : {A : Type 0} → ℕ → Made A → Type 0
Under n none = Unit
Under n (some (x, bs)) = length bs < n

made-Under : {A B : Type 0} (n : ℕ) (f : A → B) (m : Made A) → Under n m → Under n (made f m)
made-Under n f none h = tt
made-Under n f (some (x, bs)) h = h

Under-more : {A : Type 0} (n k : ℕ) (m : Made A) → n ≤ k → Under n m → Under k m
Under-more n k none e h = tt
Under-more n k (some (x, bs)) e h = omega arith

and_then-Under :
    {A B : Type 0} (n : ℕ) (m : Made A) (k : A → List ℕ → Made B)
    → ((x : A) (bs : List ℕ) → Under (suc (length bs)) (k x bs))
    → Under n m
    → Under n (and_then m k)
and_then-Under n none k j h = tt
and_then-Under n (some (x, bs)) k j h =
    Under-more (suc (length bs)) n (k x bs) (omega arith) (j x bs)

rand_int-Under : (max : ℕ) (bs : List ℕ) → Under (length bs) (rand_int max bs)
unfolding rand_int
rand_int-Under max [] = tt
rand_int-Under max (b ∷ bs) = elim (Bool-cases (ltb b (256 - 256 % max))) [
  | inl taken ↦ rw taken (omega arith)
  | inr thrown ↦ rw thrown (
      Under-more (length bs) (suc (length bs)) (rand_int max bs) (omega arith)
        (rand_int-Under max bs))
]

random_string-Under :
    (alpha : Text) (n : ℕ) (bs : List ℕ) → Under (suc (length bs)) (random_string alpha n bs)
unfolding random_string
random_string-Under alpha zero bs = omega arith
random_string-Under alpha (suc n) bs =
    and_then-Under (suc (length bs)) (rand_int (length alpha) bs) _
      (λ i cs. elim (Option-cases (get_elem? alpha i)) [
        | inl e ↦ rw e tt
        | inr (c, e) ↦ rw e (
            made-Under (suc (length cs)) (λ s. c ∷ s) (random_string alpha n cs)
              (random_string-Under alpha n cs))
      ])
      (Under-more (length bs) (suc (length bs)) (rand_int (length alpha) bs) (omega arith)
        (rand_int-Under (length alpha) bs))

-- A text that is not empty takes a byte.
random_string-fewer :
    (alpha : Text) (n : ℕ) (bs : List ℕ) → Under (length bs) (random_string alpha (suc n) bs)
unfolding random_string
random_string-fewer alpha n bs =
    and_then-Under (length bs) (rand_int (length alpha) bs) _
      (λ i cs. elim (Option-cases (get_elem? alpha i)) [
        | inl e ↦ rw e tt
        | inr (c, e) ↦ rw e (
            made-Under (suc (length cs)) (λ s. c ∷ s) (random_string alpha n cs)
              (random_string-Under alpha n cs))
      ])
      (rand_int-Under (length alpha) bs)

read-fewer : (n : ℕ) (bs : List ℕ) → Under (length bs) (read (suc n) bs)
unfolding read
read-fewer n bs = elim (Bool-cases (leb (suc n) (length bs))) [
  | inl there ↦ rw there (ground (arith, length-drop (suc n) bs))
  | inr short ↦ rw short tt
]

make-fewer : (style : LinkStyle) (bs : List ℕ) → Under (length bs) (make style bs)
unfolding make four_plus_four hex_string uuid_v4
make-fewer link_uuid_v4 bs = made-Under _ _ (read 16 bs) (read-fewer 15 bs)
make-fewer link_16_hex bs = made-Under _ _ (read 8 bs) (read-fewer 7 bs)
make-fewer link_32_hex bs = made-Under _ _ (read 16 bs) (read-fewer 15 bs)
make-fewer link_16_lower bs = random_string-fewer alpha_lower 15 bs
make-fewer link_16_mixed bs = random_string-fewer alpha_mixed 15 bs
make-fewer link_16_upper bs = random_string-fewer alpha_upper 15 bs
make-fewer link_32_lower bs = random_string-fewer alpha_lower 31 bs
make-fewer link_32_mixed bs = random_string-fewer alpha_mixed 31 bs
make-fewer link_32_upper bs = random_string-fewer alpha_upper 31 bs
make-fewer link_4_plus_4_lower bs = made-Under _ hyphen _ (random_string-fewer alpha_lower 7 bs)
make-fewer link_4_plus_4_mixed bs = made-Under _ hyphen _ (random_string-fewer alpha_mixed 7 bs)
make-fewer link_4_plus_4_upper bs = made-Under _ hyphen _ (random_string-fewer alpha_upper 7 bs)

and_then-same :
    {A B : Type 0} (n : ℕ) (m : Made A) (j k : A → List ℕ → Made B)
    → ((x : A) (bs : List ℕ) → length bs < n → j x bs ≡ k x bs)
    → Under n m
    → and_then m j ≡ and_then m k
and_then-same n none j k e h = refl
and_then-same n (some (x, bs)) j k e h = e x bs h

and_then-Under_0 :
    {A B : Type 0} (m : Made A) (k : A → List ℕ → Made B) → Under 0 m → and_then m k ≡ none
and_then-Under_0 none k h = refl
and_then-Under_0 (some (x, bs)) k h = absurd (omega arith)

generate-no_bytes :
    (exists : Text → Option Bool) (style : LinkStyle) (fuel : ℕ)
    → generate exists style fuel [] ≡ none
unfolding generate
generate-no_bytes exists style zero = refl
generate-no_bytes exists style (suc fuel) = and_then-Under_0 (make style []) _ (make-fewer style [])

-- Every attempt takes a byte, so that more rounds than there are bytes give nothing new.
generate-enough :
    (exists : Text → Option Bool) (style : LinkStyle) (fuel more : ℕ) (bs : List ℕ)
    → length bs ≤ fuel
    → fuel ≤ more
    → generate exists style fuel bs ≡ generate exists style more bs
unfolding generate
generate-enough exists style zero more [] h l =
    generate-no_bytes exists style zero ∙ sym (generate-no_bytes exists style more)
generate-enough exists style zero more (b ∷ bs) h l = absurd (omega arith)
generate-enough exists style (suc fuel) zero bs h l = absurd (omega arith)
generate-enough exists style (suc fuel) (suc more) bs h l =
    and_then-same (length bs) (make style bs) _ _
      (λ s cs short.
        rw (generate-enough exists style fuel more cs (omega arith) (omega arith)) refl)
      (make-fewer style bs)
