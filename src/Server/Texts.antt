-- ===== src/Server/Texts.antt =====
-- `strings.TrimSpace` of Go, which auth/htpasswd.go and ratelimit/ratelimit.go call, on code points.
use go_hauk.Prelude.{leb, ◌==◌, if◌then◌else◌, Text, ℕ, Bool, ◌&&◌, ◌||◌, [], ◌∷◌}

-- `unicode.IsSpace`
abbrev is_space : ℕ → Bool
is_space c =
    (leb 9 c && leb c 13)
    || c == 32
    || c == 133
    || c == 160
    || c == 5760
    || (leb 8192 c && leb c 8202)
    || c == 8232
    || c == 8233
    || c == 8239
    || c == 8287
    || c == 12288

-- `strings.TrimSpace`
abbrev trim_left : Text → Text
trim_left [] = []
trim_left (c ∷ s) = if is_space c then trim_left s else c ∷ s

abbrev keep_tail : ℕ → Text → Text
keep_tail c [] = if is_space c then [] else c ∷ []
keep_tail c (d ∷ s) = c ∷ d ∷ s

abbrev trim_right : Text → Text
trim_right [] = []
trim_right (c ∷ s) = keep_tail c (trim_right s)

abbrev pub trim_space : Text → Text
trim_space s = trim_right (trim_left s)
