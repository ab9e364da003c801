-- ===== src/Server/Linkgen.antt =====
-- The ids of new shares: linkgen/linkgen.go. `rand.Read` is a parameter: the bytes that it will give,
-- and an error when there are none left. Of the store it is a parameter which ids exist.
pub mod Texts
pub mod Shape
pub mod Open
pub mod Fair
pub mod Search
pub mod First
mod Tests
use go_hauk.Prelude.{
  ltb, leb, if◌then◌else◌, length, get_elem?, take, drop, Text, codes, ℕ, zero, suc, ◌+◌, ◌-◌, ◌/◌,
  ◌%◌, Bool, true, false, Option, none, some, List, [], ◌∷◌, ◌++◌,
}

abbrev pub alpha_lower : Text
alpha_lower = codes "0123456789abcdefghijklmnopqrstuvwxyz"

abbrev pub alpha_mixed : Text
alpha_mixed = codes "123456789ABCDEFGHJKLMNPQRSTUVWXYZabcdefghijkmnopqrstuvwxyz"

abbrev pub alpha_upper : Text
alpha_upper = codes "123456789ABCDEFGHIJKLMNPQRSTUVWXYZ"

-- `config.LinkStyle`; a number beyond the last one is treated as the first.
pub data LinkStyle : Type 0 where
  link_4_plus_4_upper link_4_plus_4_lower link_4_plus_4_mixed : LinkStyle
  link_uuid_v4 : LinkStyle
  link_16_hex link_16_upper link_16_lower link_16_mixed : LinkStyle
  link_32_hex link_32_upper link_32_lower link_32_mixed : LinkStyle

-- What is made of some bytes, and the bytes left; `none` is an error.
abbrev pub Made : Type 0 → Type 0
Made A = Option (A × List ℕ)

abbrev pub and_then : {A B : Type 0} → Made A → (A → List ℕ → Made B) → Made B
and_then none k = none
and_then (some (x, bs)) k = k x bs

abbrev pub made : {A B : Type 0} → (A → B) → Made A → Made B
made f none = none
made f (some (x, bs)) = some (f x, bs)

-- The accepted bytes of `randInt`.
abbrev pub is_accepted : ℕ → ℕ → Bool
is_accepted max b = ltb b (256 - 256 % max)

unfoldable pub rand_int : ℕ → List ℕ → Made ℕ
rand_int max [] = none
rand_int max (b ∷ bs) =
    let rest = rand_int max bs in if is_accepted max b then some (b % max, bs) else rest

-- The loop of `randomString`; `alpha[idx]` beyond the end would be an error.
unfoldable pub random_string : Text → ℕ → List ℕ → Made Text
unfolding rand_int
random_string alpha zero bs = some ([], bs)
random_string alpha (suc n) bs = and_then (rand_int (length alpha) bs) (λ i cs.
    elim (get_elem? alpha i) [
      | none ↦ none
      | some c ↦ made (λ s. c ∷ s) (random_string alpha n cs)
    ])

abbrev pub hyphen : Text → Text
hyphen s = take 4 s ++ b'-' ∷ drop 4 s

unfoldable pub four_plus_four : Text → List ℕ → Made Text
unfolding random_string
four_plus_four alpha bs = made hyphen (random_string alpha 8 bs)

-- `rand.Read` of `n` bytes.
unfoldable pub read : ℕ → List ℕ → Made (List ℕ)
read n bs = if leb n (length bs) then some (take n bs, drop n bs) else none

abbrev pub hex_digit : ℕ → ℕ
hex_digit n = if ltb n 10 then 48 + n else 87 + n

-- `hex.EncodeToString`
unfoldable pub hex_text : List ℕ → Text
hex_text [] = []
hex_text (b ∷ bs) = hex_digit (b / 16) ∷ hex_digit (b % 16) ∷ hex_text bs

unfoldable pub hex_string : ℕ → List ℕ → Made Text
unfolding read hex_text
hex_string n bs = made hex_text (read n bs)

-- `b[6] = (b[6] & 0x0f) | 0x40` and `b[8] = (b[8] & 0x3f) | 0x80`, of sixteen bytes.
abbrev pub with_version : List ℕ → List ℕ
with_version (b0 ∷ b1 ∷ b2 ∷ b3 ∷ b4 ∷ b5 ∷ b6 ∷ b7 ∷ b8 ∷ bs) =
    b0 ∷ b1 ∷ b2 ∷ b3 ∷ b4 ∷ b5 ∷ (b6 % 16 + 64) ∷ b7 ∷ (b8 % 64 + 128) ∷ bs
with_version bs = bs

-- `h[from:to]`
abbrev pub slice : ℕ → ℕ → Text → Text
slice from to h = take (to - from) (drop from h)

abbrev pub hyphens : Text → Text
hyphens h =
    slice 0 8 h
    ++ b'-'
      ∷ (slice 8 12 h ++ b'-' ∷ (slice 12 16 h ++ b'-' ∷ (slice 16 20 h ++ b'-' ∷ slice 20 32 h)))

unfoldable pub uuid_v4 : List ℕ → Made Text
unfolding read hex_text
uuid_v4 bs = made (λ b. hyphens (hex_text (with_version b))) (read 16 bs)

-- `generate`
unfoldable pub make : LinkStyle → List ℕ → Made Text
unfolding uuid_v4 hex_string random_string four_plus_four
make link_uuid_v4 bs = uuid_v4 bs
make link_16_hex bs = hex_string 8 bs
make link_16_lower bs = random_string alpha_lower 16 bs
make link_16_mixed bs = random_string alpha_mixed 16 bs
make link_16_upper bs = random_string alpha_upper 16 bs
make link_32_hex bs = hex_string 16 bs
make link_32_lower bs = random_string alpha_lower 32 bs
make link_32_mixed bs = random_string alpha_mixed 32 bs
make link_32_upper bs = random_string alpha_upper 32 bs
make link_4_plus_4_lower bs = four_plus_four alpha_lower bs
make link_4_plus_4_mixed bs = four_plus_four alpha_mixed bs
make link_4_plus_4_upper bs = four_plus_four alpha_upper bs

-- What `Exists` of the store says decides whether the loop goes on; `none` is an error.
abbrev pub if_unused : Option Bool → Made Text → Made Text → Made Text
if_unused none found again = none
if_unused (some true) found again = again
if_unused (some false) found again = found

-- `Generate`, up to a number of attempts, `fuel`: its loop has no bound.
unfoldable pub generate : (Text → Option Bool) → LinkStyle → ℕ → List ℕ → Made Text
unfolding make
generate exists style zero bs = none
generate exists style (suc fuel) bs =
    and_then (make style bs)
      (λ s cs. if_unused (exists s) (some (s, cs)) (generate exists style fuel cs))
