-- ===== src/Server/Linkgen/Shape.antt =====
-- Ids are of letters, digits and hyphens, and as long as their style says.
use mathlib.Core.Option.{some-injective}
use go_hauk.Prelude.{
  ltb, leb, Bool-cases, Option-cases, length, get_elem?, take, drop, All, Text, ℕ, zero, suc, ◌+◌,
  ◌-◌, ◌%◌, ◌≤◌, ◌≡◌, refl, ap, subst, inl, inr, Bool, false, none, some, List, [], ◌∷◌, arith,
  Option, true,
}
use go_hauk.Server.Linkgen.{
  alpha_lower, alpha_mixed, alpha_upper, LinkStyle, link_4_plus_4_upper, link_4_plus_4_lower,
  link_4_plus_4_mixed, link_uuid_v4, link_16_hex, link_16_upper, link_16_lower, link_16_mixed,
  link_32_hex, link_32_upper, link_32_lower, link_32_mixed, Made, and_then, made, rand_int,
  random_string, hyphen, four_plus_four, read, hex_text, hex_string, with_version, hyphens, uuid_v4,
  make, generate,
}
use go_hauk.Server.Linkgen.Texts.{
  IsLinkChar, IsByte, IsLink, all_link-All, hyphen-IsLink, hyphens-IsLink, hex_text-IsLink,
}

-- The length of the ids of a style.
abbrev pub style_length : LinkStyle → ℕ
style_length link_4_plus_4_upper = 9
style_length link_4_plus_4_lower = 9
style_length link_4_plus_4_mixed = 9
style_length link_uuid_v4 = 36
style_length link_16_hex = 16
style_length link_16_upper = 16
style_length link_16_lower = 16
style_length link_16_mixed = 16
style_length link_32_hex = 32
style_length link_32_upper = 32
style_length link_32_lower = 32
style_length link_32_mixed = 32

-- What is made has a property, and the bytes left are bytes.
abbrev pub Yields : {A : Type 0} → (A → Type 0) → Made A → Type 0
Yields P none = Unit
Yields P (some (x, bs)) = P x × All IsByte bs

rand_int-Yields : (max : ℕ) (bs : List ℕ) → All IsByte bs → Yields (λ i. Unit) (rand_int max bs)
unfolding rand_int
rand_int-Yields max [] h = tt
rand_int-Yields max (b ∷ bs) h = elim (Bool-cases (ltb b (256 - 256 % max))) [
  | inl taken ↦ rw taken (tt, h.1)
  | inr thrown ↦ rw thrown (rand_int-Yields max bs h.1)
]

get_elem?-All : (s : Text) (i c : ℕ) → All IsLinkChar s → get_elem? s i ≡ some c → IsLinkChar c
get_elem?-All [] i c h e = cc
get_elem?-All (d ∷ s) zero c h e = subst IsLinkChar (some-injective _ _ e) h.0
get_elem?-All (d ∷ s) (suc i) c h e = get_elem?-All s i c h.1 e

made-Yields :
    {A B : Type 0} (P : A → Type 0) (Q : B → Type 0) (f : A → B) (m : Made A)
    → ((x : A) → P x → Q (f x))
    → Yields P m
    → Yields Q (made f m)
made-Yields P Q f none k h = tt
made-Yields P Q f (some (x, bs)) k h = (k x h.0, h.1)

and_then-Yields :
    {A B : Type 0} (P : A → Type 0) (Q : B → Type 0) (m : Made A) (k : A → List ℕ → Made B)
    → ((x : A) (bs : List ℕ) → P x → All IsByte bs → Yields Q (k x bs))
    → Yields P m
    → Yields Q (and_then m k)
and_then-Yields P Q none k j h = tt
and_then-Yields P Q (some (x, bs)) k j h = j x bs h.0 h.1

pick_char-Yields :
    (alpha : Text) (n i : ℕ) (m : Made Text)
    → All IsLinkChar alpha
    → Yields (IsLink n) m
    → Yields
        (IsLink (suc n))
        (elim (get_elem? alpha i) [ none ↦ none | some c ↦ made (λ s. c ∷ s) m ])
pick_char-Yields alpha n i m h y = elim (Option-cases (get_elem? alpha i)) [
  | inl e ↦ rw e tt
  | inr (c, e) ↦ rw e (
      made-Yields (IsLink n) (IsLink (suc n)) (λ s. c ∷ s) m
        (λ s k. ((get_elem?-All alpha i c h e, k.0), ap suc k.1)) y)
]

random_string-Yields :
    (alpha : Text) (n : ℕ) (bs : List ℕ)
    → All IsLinkChar alpha
    → All IsByte bs
    → Yields (IsLink n) (random_string alpha n bs)
unfolding random_string
random_string-Yields alpha zero bs h b = ((tt, refl), b)
random_string-Yields alpha (suc n) bs h b =
    and_then-Yields (λ i. Unit) (IsLink (suc n)) (rand_int (length alpha) bs) _
      (λ i cs _ c.
        pick_char-Yields alpha n i (random_string alpha n cs) h
          (random_string-Yields alpha n cs h c))
      (rand_int-Yields (length alpha) bs b)

-- Some bytes.
abbrev Bytes : ℕ → List ℕ → Type 0
Bytes n bs = All IsByte bs × (length bs ≡ n)

take-Bytes : (n : ℕ) (bs : List ℕ) → n ≤ length bs → All IsByte bs → Bytes n (take n bs)
take-Bytes zero bs l h = (tt, refl)
take-Bytes (suc n) [] l h = absurd (omega arith)
take-Bytes (suc n) (b ∷ bs) l h =
    let r = take-Bytes n bs (omega arith) h.1 in ((h.0, r.0), ap suc r.1)

drop-IsByte : (n : ℕ) (bs : List ℕ) → All IsByte bs → All IsByte (drop n bs)
drop-IsByte zero bs h = h
drop-IsByte (suc n) [] h = tt
drop-IsByte (suc n) (b ∷ bs) h = drop-IsByte n bs h.1

read-Yields : (n : ℕ) (bs : List ℕ) → All IsByte bs → Yields (Bytes n) (read n bs)
unfolding read
read-Yields n bs h = elim (Bool-cases (leb n (length bs))) [
  | inl there ↦ rw there (take-Bytes n bs (ground arith) h, drop-IsByte n bs h)
  | inr short ↦ rw short tt
]

with_version-Bytes : (n : ℕ) (bs : List ℕ) → Bytes n bs → Bytes n (with_version bs)
with_version-Bytes n (b0 ∷ b1 ∷ b2 ∷ b3 ∷ b4 ∷ b5 ∷ b6 ∷ b7 ∷ b8 ∷ bs) h = (
  (
    h.0.0,
    (
      h.0.1.0,
      (
        h.0.1.1.0,
        (
          h.0.1.1.1.0,
          (
            h.0.1.1.1.1.0,
            (
              h.0.1.1.1.1.1.0,
              (omega arith, (h.0.1.1.1.1.1.1.1.0, (omega arith, h.0.1.1.1.1.1.1.1.1.1))),
            ),
          ),
        ),
      ),
    ),
  ),
  h.1,
)
with_version-Bytes n bs h = h

hex_string-Yields :
    (n : ℕ) (bs : List ℕ) → All IsByte bs → Yields (IsLink (n + n)) (hex_string n bs)
unfolding hex_string
hex_string-Yields n bs h =
    made-Yields (Bytes n) (IsLink (n + n)) hex_text (read n bs)
      (λ b k. rw (← k.1) (hex_text-IsLink b k.0)) (read-Yields n bs h)

uuid_v4-Yields : (bs : List ℕ) → All IsByte bs → Yields (IsLink 36) (uuid_v4 bs)
unfolding uuid_v4
uuid_v4-Yields bs h =
    made-Yields (Bytes 16) (IsLink 36) (λ b. hyphens (hex_text (with_version b))) (read 16 bs)
      (λ b k.
        let v = with_version-Bytes 16 b k in
        let t = hex_text-IsLink (with_version b) v.0 in
        hyphens-IsLink (hex_text (with_version b)) (t.0, omega (arith, t.1, v.1)))
      (read-Yields 16 bs h)

four_plus_four-Yields :
    (alpha : Text) (bs : List ℕ)
    → All IsLinkChar alpha
    → All IsByte bs
    → Yields (IsLink 9) (four_plus_four alpha bs)
unfolding four_plus_four
four_plus_four-Yields alpha bs h b =
    made-Yields (IsLink 8) (IsLink 9) hyphen (random_string alpha 8 bs) hyphen-IsLink
      (random_string-Yields alpha 8 bs h b)

make-Yields :
    (style : LinkStyle) (bs : List ℕ)
    → All IsByte bs
    → Yields (IsLink (style_length style)) (make style bs)
unfolding make
make-Yields link_uuid_v4 bs h = uuid_v4-Yields bs h
make-Yields link_16_hex bs h = hex_string-Yields 8 bs h
make-Yields link_32_hex bs h = hex_string-Yields 16 bs h
make-Yields link_16_lower bs h =
    random_string-Yields alpha_lower 16 bs (all_link-All alpha_lower refl) h
make-Yields link_16_mixed bs h =
    random_string-Yields alpha_mixed 16 bs (all_link-All alpha_mixed refl) h
make-Yields link_16_upper bs h =
    random_string-Yields alpha_upper 16 bs (all_link-All alpha_upper refl) h
make-Yields link_32_lower bs h =
    random_string-Yields alpha_lower 32 bs (all_link-All alpha_lower refl) h
make-Yields link_32_mixed bs h =
    random_string-Yields alpha_mixed 32 bs (all_link-All alpha_mixed refl) h
make-Yields link_32_upper bs h =
    random_string-Yields alpha_upper 32 bs (all_link-All alpha_upper refl) h
make-Yields link_4_plus_4_lower bs h =
    four_plus_four-Yields alpha_lower bs (all_link-All alpha_lower refl) h
make-Yields link_4_plus_4_mixed bs h =
    four_plus_four-Yields alpha_mixed bs (all_link-All alpha_mixed refl) h
make-Yields link_4_plus_4_upper bs h =
    four_plus_four-Yields alpha_upper bs (all_link-All alpha_upper refl) h

-- An id that was found is not in the store.
abbrev pub IsNew : (Text → Option Bool) → LinkStyle → Text → Type 0
IsNew exists style s = IsLink (style_length style) s × (exists s ≡ some false)

-- Whatever bytes there are, an id that is made has the length of its style, is of letters, digits and
-- hyphens only, and was not in the store.
pub generate-Yields :
    (exists : Text → Option Bool) (style : LinkStyle) (fuel : ℕ) (bs : List ℕ)
    → All IsByte bs
    → Yields (IsNew exists style) (generate exists style fuel bs)
unfolding generate
generate-Yields exists style zero bs h = tt
generate-Yields exists style (suc fuel) bs h =
    and_then-Yields (IsLink (style_length style)) (IsNew exists style) (make style bs) _
      (λ s cs k c. elim (Option-cases (exists s)) [
        | inl failed ↦ rw failed tt
        | inr (true, taken) ↦ rw taken (generate-Yields exists style fuel cs c)
        | inr (false, free) ↦ rw free ((k, free), c)
      ])
      (make-Yields style bs h)
