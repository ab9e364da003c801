-- ===== src/Server/Limiter/Client.antt =====
-- Whose requests are counted together: `clientIP` of ratelimit/ratelimit.go.
use go_hauk.Prelude.{
  ◌==◌, if◌then◌else◌, length, take, Text, index_of, ℕ, suc, ◌≡◌, refl, ap, ◌⊎◌, inl, inr, Bool,
  true, false, Option, none, some, [], ◌∷◌, ◌++◌, arith,
}
use go_hauk.Server.Texts.{trim_space}

-- `s[:idx]` for the first and for the last index of a character, where it is there.
abbrev take_before : Text → Option ℕ → Text
take_before s none = s
take_before s (some i) = take i s

unfoldable pub last_index_of : ℕ → Text → Option ℕ
last_index_of c [] = none
last_index_of c (d ∷ s) = elim (last_index_of c s) [
  | none ↦ (if d == c then some 0 else none)
  | some i ↦ some (suc i)
]

abbrev remote_host : Text → Text
remote_host addr = take_before addr (last_index_of b':' addr)

abbrev by_real_ip : Text → Text → Text
by_real_ip [] addr = remote_host addr
by_real_ip (c ∷ s) addr = c ∷ s

abbrev by_forwarded : Text → Text → Text → Text
by_forwarded [] real_ip addr = by_real_ip real_ip addr
by_forwarded (c ∷ s) real_ip addr = trim_space (take_before (c ∷ s) (index_of b',' (c ∷ s)))

-- `clientIP`, from `trustProxy`, the headers `X-Forwarded-For` and `X-Real-IP`, and `RemoteAddr`.
unfoldable pub client_ip : Bool → Text → Text → Text → Text
unfolding last_index_of index_of
client_ip trust_proxy forwarded real_ip addr =
    if trust_proxy then by_forwarded forwarded real_ip addr else remote_host addr

last_index_of-none : (c : ℕ) (s : Text) → index_of c s ≡ none → last_index_of c s ≡ none
unfolding last_index_of index_of
last_index_of-none c [] h = refl
last_index_of-none c (d ∷ s) h = ground (arith, last_index_of-none c s)

last_index_of-append :
    (c : ℕ) (s t : Text) → index_of c t ≡ none → last_index_of c (s ++ c ∷ t) ≡ some (length s)
unfolding last_index_of
last_index_of-append c [] t h = rw (last_index_of-none c t h) (ground arith)
last_index_of-append c (d ∷ s) t h = rw (last_index_of-append c s t h) refl

take-length : (s t : Text) → take (length s) (s ++ t) ≡ s
take-length [] t = refl
take-length (c ∷ s) t = ap (λ u. c ∷ u) (take-length s t)

-- Without a proxy that is trusted, or with neither header, the requests of one host are counted
-- together, whatever ports they come from and whatever else the headers say.
client_ip-append :
    (trust_proxy : Bool) (forwarded real_ip host port : Text)
    → (trust_proxy ≡ false) ⊎ ((forwarded ≡ []) × (real_ip ≡ []))
    → index_of b':' port ≡ none
    → client_ip trust_proxy forwarded real_ip (host ++ b':' ∷ port) ≡ host
unfolding client_ip
client_ip-append false forwarded real_ip host port h none_left =
    rw (last_index_of-append b':' host port none_left) (take-length host (b':' ∷ port))
client_ip-append true forwarded real_ip host port (inl no_proxy) none_left = cc
client_ip-append true forwarded real_ip host port (inr (no_forwarded, no_real)) none_left =
    rw (no_forwarded, no_real, last_index_of-append b':' host port none_left)
      (take-length host (b':' ∷ port))
