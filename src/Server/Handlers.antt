-- ===== src/Server/Handlers.antt =====
-- What the handlers of api/ share: the configuration, the form of a request, and the numbers in it.
-- Ints of the configuration that limit something are taken not to be negative.
pub mod Post
pub mod Stop
pub mod Create
pub mod Adopt
pub mod NewLink
mod Tests
use go_hauk.Prelude.{
  ltb, leb, ◌==◌, if◌then◌else◌, Text, Dict, lookup, ℕ, zero, suc, ◌+◌, ◌-◌, ◌*◌, Bool, true, false,
  ◌&&◌, Option, none, some, List, [], ◌∷◌,
}
use go_hauk.Frontend.Number.{Float}
use go_hauk.Frontend.Countdown.{show}
use go_hauk.Server.Linkgen.{LinkStyle}

-- The fields of `config.Config` that the handlers read, and what is not the repository's own: the
-- authentication of a user by a password, and `strconv.ParseFloat` with whether it succeeded.
pub record Env (F : Float) : Type 0 where
  pub public_url : Text
  pub max_duration : ℕ
  pub min_interval : F.Num
  pub max_cached_pts : ℕ
  pub link_style : LinkStyle
  pub allow_link_req : Bool
  pub reserved_links : Dict (List Text)
  pub reserve_wl : Bool
  pub authenticate : Text → Text → Bool
  pub parse_float : Text → F.Num × Bool

-- The parsed form of a request; `none` is one that `ParseForm` refuses.
abbrev pub Form : Type 0
Form = Dict Text

abbrev or_empty : Option Text → Text
or_empty none = []
or_empty (some t) = t

-- `r.FormValue`
unfoldable pub form_value : Text → Form → Text
form_value key f = or_empty (lookup key f)

-- `t == ""`
abbrev pub is_empty {ℓ} : {A : Type ℓ} → List A → Bool
is_empty [] = true
is_empty (c ∷ t) = false

-- An int.
pub data ℤ : Type 0 where
  pos : ℕ → ℤ
  negsuc : ℕ → ℤ

abbrev next_digit : Option ℕ → ℕ → Option ℕ
next_digit none c = none
next_digit (some n) c = if leb 48 c && leb c 57 then some (10 * n + (c - 48)) else none

unfoldable pub scan_digits : Option ℕ → Text → Option ℕ
scan_digits n [] = n
scan_digits n (c ∷ t) = scan_digits (next_digit n c) t

abbrev pub digits_value : Text → Option ℕ
digits_value [] = none
digits_value (c ∷ t) = scan_digits (some 0) (c ∷ t)

abbrev pub negate : ℕ → ℤ
negate zero = pos 0
negate (suc n) = negsuc n

-- A 64-bit int: beyond the range the nearest int, and an error.
abbrev pub positive_int : Option ℕ → ℤ × Bool
positive_int none = (pos 0, false)
positive_int (some n) =
    if ltb n 9223372036854775808 then (pos n, true) else (pos 9223372036854775807, false)

abbrev pub negative_int : Option ℕ → ℤ × Bool
negative_int none = (pos 0, false)
negative_int (some n) =
    if leb n 9223372036854775808 then (negate n, true) else (negate 9223372036854775808, false)

-- `strconv.Atoi`: the int, 0 for a text that is none, and whether it succeeded.
unfoldable pub atoi : Text → ℤ × Bool
unfolding scan_digits
atoi [] = (pos 0, false)
atoi (c ∷ t) =
    if c == b'-'
    then negative_int (digits_value t)
    else if c == b'+'
    then positive_int (digits_value t)
    else positive_int (digits_value (c ∷ t))

-- `strconv.Itoa`
unfoldable pub itoa : ℤ → Text
itoa (pos n) = show n
itoa (negsuc n) = b'-' ∷ show (suc n)
