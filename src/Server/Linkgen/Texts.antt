-- ===== src/Server/Linkgen/Texts.antt =====
-- Texts of letters, digits and hyphens, of a known length.
use go_hauk.Prelude.{
  leb, ◌==◌, length, take, drop, All, Text, ℕ, zero, suc, ◌+◌, ◌-◌, ◌/◌, ◌%◌, ◌≤◌, ◌<◌, ◌≡◌, refl,
  ap, Bool, true, ◌&&◌, ◌||◌, List, [], ◌∷◌, ◌++◌, arith,
}
use go_hauk.Server.Linkgen.{hyphen, slice, hex_digit, hex_text, hyphens}

abbrev pub is_link_char : ℕ → Bool
is_link_char c =
    (leb b'0' c && leb c b'9')
    || (leb b'A' c && leb c b'Z')
    || (leb b'a' c && leb c b'z')
    || c == b'-'

abbrev pub IsLinkChar : ℕ → Type 0
IsLinkChar c = is_link_char c ≡ true

abbrev pub all_link : Text → Bool
all_link [] = true
all_link (c ∷ s) = is_link_char c && all_link s

pub all_link-All : (s : Text) → all_link s ≡ true → All IsLinkChar s
all_link-All [] h = tt
all_link-All (c ∷ s) h = (ground arith, all_link-All s (ground arith))

abbrev pub IsByte : ℕ → Type 0
IsByte b = b < 256

-- A text of link characters of a length.
abbrev pub IsLink : ℕ → Text → Type 0
IsLink n s = All IsLinkChar s × (length s ≡ n)

append-IsLink : (m n : ℕ) (s t : Text) → IsLink m s → IsLink n t → IsLink (m + n) (s ++ t)
append-IsLink m n [] t h k = (k.0, ground (arith, h.1, k.1))
append-IsLink m n (c ∷ s) t h k =
    let r = append-IsLink (length s) n s t (h.0.1, refl) k in
    ((h.0.0, r.0), omega (arith, h.1, r.1))

pub take-IsLink : (k n : ℕ) (s : Text) → k ≤ n → IsLink n s → IsLink k (take k s)
take-IsLink zero n s h l = (tt, refl)
take-IsLink (suc k) n [] h l = absurd (omega (arith, l.1))
take-IsLink (suc k) n (c ∷ s) h l =
    let r = take-IsLink k (length s) s (omega (arith, l.1)) (l.0.1, refl) in
    ((l.0.0, r.0), ap suc r.1)

drop-IsLink : (k n : ℕ) (s : Text) → IsLink n s → IsLink (n - k) (drop k s)
drop-IsLink zero n s l = (l.0, omega (arith, l.1))
drop-IsLink (suc k) n [] l = (tt, omega (arith, l.1))
drop-IsLink (suc k) n (c ∷ s) l =
    let r = drop-IsLink k (length s) s (l.0.1, refl) in (r.0, omega (arith, l.1, r.1))

slice-IsLink :
    (from to n : ℕ) (s : Text) → to ≤ n → IsLink n s → IsLink (to - from) (slice from to s)
slice-IsLink from to n s h l =
    take-IsLink (to - from) (n - from) (drop from s) (omega arith) (drop-IsLink from n s l)

pub hyphen-IsLink : (s : Text) → IsLink 8 s → IsLink 9 (hyphen s)
hyphen-IsLink s h =
    let a = take-IsLink 4 8 s (omega arith) h in
    let b = drop-IsLink 4 8 s h in
    append-IsLink 4 5 (take 4 s) (b'-' ∷ drop 4 s) a ((refl, b.0), ap suc b.1)

-- A hyphen between two texts.
join-IsLink : (m n : ℕ) (s t : Text) → IsLink m s → IsLink n t → IsLink (m + suc n) (s ++ b'-' ∷ t)
join-IsLink m n s t h k = append-IsLink m (suc n) s (b'-' ∷ t) h ((refl, k.0), ap suc k.1)

pub hyphens-IsLink : (h : Text) → IsLink 32 h → IsLink 36 (hyphens h)
hyphens-IsLink h l =
    let part = λ (from to : ℕ) (e : to ≤ 32). slice-IsLink from to 32 h e l in
    join-IsLink 8 27 (slice 0 8 h) _ (part 0 8 (omega arith)) (
      join-IsLink 4 22 (slice 8 12 h) _ (part 8 12 (omega arith)) (
        join-IsLink 4 17 (slice 12 16 h) _ (part 12 16 (omega arith)) (
          join-IsLink 4 12 (slice 16 20 h) (slice 20 32 h) (part 16 20 (omega arith))
            (part 20 32 (omega arith)))))

hex_digit-IsLinkChar : (n : ℕ) → n < 16 → IsLinkChar (hex_digit n)
hex_digit-IsLinkChar n h = ground arith

pub hex_text-IsLink : (bs : List ℕ) → All IsByte bs → IsLink (length bs + length bs) (hex_text bs)
unfolding hex_text
hex_text-IsLink [] h = (tt, refl)
hex_text-IsLink (b ∷ bs) h =
    let r = hex_text-IsLink bs h.1 in
    let small : b < 256 = h.0 in
    (
      (
        hex_digit-IsLinkChar (b / 16) (omega arith),
        (hex_digit-IsLinkChar (b % 16) (omega arith), r.0),
      ),
      omega (arith, r.1),
    )
