-- ===== src/Frontend/Countdown/Clock.antt =====
-- The text of the countdown can be read back.
use mathlib.Core.List.{append_assoc, append-nil}
use go_hauk.Prelude.{
  ltb, ◌==◌, if◌then◌else◌, ltb→lt, lt→ltb, Bool-cases, Text, codes, ℕ, zero, suc, ◌+◌, ◌-◌, ◌*◌,
  ◌/◌, ◌%◌, ◌<◌, ◌≡◌, refl, sym, ap, ◌∙◌, inl, inr, Bool, true, false, [], ◌∷◌, ◌++◌, arith,
}
use go_hauk.Frontend.Countdown.{digits_from, show, clock_text}

-- How a viewer reads a clock: digits make a number, and each colon makes what came before it sixty
-- times as large.
unfoldable pub read_from : ℕ → ℕ → Text → ℕ
read_from total number [] = total + number
read_from total number (c ∷ t) =
    if c == b':'
    then read_from (60 * (total + number)) 0 t
    else read_from total (10 * number + (c - 48)) t

unfoldable pub read_clock : Text → ℕ
unfolding read_from
read_clock t = read_from 0 0 t

read_from-digit :
    (total number d : ℕ) (t : Text)
    → d < 10
    → read_from total number ((48 + d) ∷ t) ≡ read_from total (10 * number + d) t
unfolding read_from
read_from-digit total number d t h =
    let other : (48 + d == b':') ≡ false = ground arith in
    let value : 48 + d - 48 ≡ d = omega arith in rw (other, value)

read_from-colon :
    (total number : ℕ) (t : Text)
    → read_from total number (b':' ∷ t) ≡ read_from (60 * (total + number)) 0 t
unfolding read_from
read_from-colon total number t = refl

read_from-digits_from :
    (fuel n total : ℕ) (rest : Text)
    → n < fuel
    → read_from total 0 (digits_from fuel n ++ rest) ≡ read_from total n rest
unfolding digits_from
read_from-digits_from zero n total rest h = absurd (omega arith)
read_from-digits_from (suc fuel) n total rest h = elim (Bool-cases (ltb n 10)) [
  | inl small ↦ rw small (
      read_from-digit total 0 n rest (ground arith)
      ∙ ap (λ k. read_from total k rest) (omega arith))
  | inr large ↦
      rw (large, append_assoc (digits_from fuel (n / 10)) ((48 + n % 10) ∷ []) rest)
        (read_from-digits_from fuel (n / 10) total ((48 + n % 10) ∷ rest) (ground arith)
          ∙ read_from-digit total (n / 10) (n % 10) rest (omega arith)
          ∙ ap (λ k. read_from total k rest) (omega arith))
]

read_from-show :
    (n total : ℕ) (rest : Text) → read_from total 0 (show n ++ rest) ≡ read_from total n rest
unfolding show
read_from-show n total rest = read_from-digits_from (suc n) n total rest (omega arith)

-- A zero in front of a number is not read.
read_from-padded :
    (b : Bool) (n total : ℕ) (rest : Text)
    → read_from total 0 ((if b then codes "0" else []) ++ (show n ++ rest)) ≡ read_from total n rest
unfolding read_from
read_from-padded true n total rest = read_from-show n total rest
read_from-padded false n total rest = read_from-show n total rest

read_hours :
    (h : ℕ) (rest : Text)
    → read_from 0 0 ((if ltb 0 h then show h ++ codes ":" else []) ++ rest)
      ≡ read_from (60 * h) 0 rest
read_hours h rest = elim (Bool-cases (ltb 0 h)) [
  | inl some_hours ↦
      rw (some_hours, append_assoc (show h) (codes ":") rest)
        (read_from-show h 0 (b':' ∷ rest)
          ∙ read_from-colon 0 h rest
          ∙ ap (λ k. read_from k 0 rest) (omega arith))
  | inr no_hours ↦ rw no_hours (ap (λ k. read_from k 0 rest) (ground arith))
]

read_minutes :
    (b : Bool) (m total : ℕ) (rest : Text)
    → read_from total 0 ((if b then codes "0" else []) ++ (show m ++ (codes ":" ++ rest)))
      ≡ read_from (60 * (total + m)) 0 rest
read_minutes b m total rest =
    read_from-padded b m total (b':' ∷ rest) ∙ read_from-colon total m rest

read_seconds :
    (b : Bool) (s total : ℕ)
    → read_from total 0 ((if b then codes "0" else []) ++ show s) ≡ total + s
read_seconds b s total =
    ap (λ t. read_from total 0 ((if b then codes "0" else []) ++ t)) (sym (append-nil (show s)))
    ∙ read_from-padded b s total []
    ∙ unfold read_from in refl

-- The text of the countdown, read as a clock, is the number of seconds that it was made from: no
-- hours, minutes or seconds are lost or shown twice.
pub read_clock-clock_text : (seconds : ℕ) → read_clock (clock_text seconds) ≡ seconds
unfolding read_clock clock_text
read_clock-clock_text seconds =
    read_hours (seconds / 3600) _
    ∙ read_minutes _ (seconds % 3600 / 60) (60 * (seconds / 3600)) _
    ∙ read_seconds (ltb (seconds % 60) 10) (seconds % 60) _
    ∙ omega arith

-- A number below 100 with two digits.
abbrev pub two_digits : ℕ → Text
two_digits n = (48 + n / 10) ∷ (48 + n % 10) ∷ []

show_small : (n : ℕ) → n < 10 → show n ≡ (48 + n) ∷ []
unfolding show digits_from
show_small n h = rw (lt→ltb n 10 h)

show_two : (n : ℕ) → ltb n 10 ≡ false → n < 100 → show n ≡ two_digits n
unfolding show digits_from
show_two zero h k = cc
show_two (suc n) h k = rw (h, lt→ltb (suc n / 10) 10 (omega arith))

pad_two : (n : ℕ) → n < 60 → (if ltb n 10 then codes "0" else []) ++ show n ≡ two_digits n
pad_two n h = elim (Bool-cases (ltb n 10)) [
  | inl small ↦
      let lt : n < 10 = ltb→lt n 10 small in
      let q : n / 10 ≡ 0 = omega arith in
      let r : n % 10 ≡ n = omega arith in rw (small, show_small n lt, q, r)
  | inr large ↦ rw large (show_two n large (omega arith))
]

pad_append :
    (n : ℕ) (rest : Text)
    → n < 60
    → (if ltb n 10 then codes "0" else []) ++ (show n ++ rest) ≡ two_digits n ++ rest
pad_append n rest h =
    sym (append_assoc (if ltb n 10 then codes "0" else []) (show n) rest)
    ∙ ap (λ t. t ++ rest) (pad_two n h)

-- The text of the countdown is M:SS below an hour and H:MM:SS from an hour on, with the minutes of
-- an hour and the seconds always in two digits.
pub clock_text-two_digits :
    (seconds : ℕ)
    → clock_text seconds
      ≡ (if ltb 0 (seconds / 3600)
          then show (seconds / 3600) ++ codes ":" ++ two_digits (seconds % 3600 / 60)
          else show (seconds / 60))
        ++ codes ":"
        ++ two_digits (seconds % 60)
unfolding clock_text
clock_text-two_digits seconds = elim (Bool-cases (ltb 0 (seconds / 3600))) [
  | inl some_hours ↦
      rw
        (
          some_hours,
          pad_append (seconds % 3600 / 60) _ (omega arith),
          pad_two (seconds % 60) (omega arith),
        )
        (simp append_assoc)
  | inr no_hours ↦
      let whole : seconds % 3600 / 60 ≡ seconds / 60 = ground arith in
      rw (no_hours, pad_two (seconds % 60) (omega arith), whole) (simp append_assoc)
]
