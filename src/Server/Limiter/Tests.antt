-- ===== src/Server/Limiter/Tests.antt =====
-- Two clients at a limit of two requests in a window of ten, and the theorems at them.
use go_hauk.Prelude.{
  length, codes, text_eq, lookup, insert, ◌-◌, ◌≤◌, ◌≡◌, refl, true, [], ◌∷◌, arith,
}
use go_hauk.Server.Limiter.{Limiter, max_entries, new, clean_up, allow}
use go_hauk.Server.Limiter.Client.{client_ip}
use go_hauk.Server.Limiter.Capacity.{here, next, new-Fits}
use go_hauk.Server.Limiter.Window.{Requests, admitted, requested, lesser, Holds, admitted-lesser}

abbrev limiter : Limiter
limiter = new 0 2 10

abbrev asked : Limiter
asked = (allow 1 (codes "a") limiter).0

abbrev requests : Requests
requests = (2, codes "a") ∷ (3, codes "b") ∷ (4, codes "a") ∷ (11, codes "a") ∷ []

two_of_three : admitted (codes "a") requests asked ≡ 1
unfolding admitted allow clean_up lookup insert text_eq
two_of_three = refl

-- The next window begins after the end of the last.
let_through : (allow 12 (codes "a") asked).1 ≡ true
unfolding allow clean_up lookup insert text_eq
let_through = refl

new-Fits_example : length asked.entries ≤ max_entries
new-Fits_example = new-Fits 0 2 10 (next 1 (codes "a") here)

asked-Holds : Holds (codes "a") (record { count = 1; reset_at = 11 }) 2 asked
unfolding allow clean_up lookup insert text_eq
asked-Holds = record { on = omega arith; same = refl; entry = refl }

admitted-lesser_example :
    admitted (codes "a") requests asked ≡ lesser (requested (codes "a") requests) (2 - 1)
admitted-lesser_example =
    admitted-lesser (codes "a") 2 requests (record { count = 1; reset_at = 11 }) asked asked-Holds
      (omega arith, (omega arith, (omega arith, (omega arith, tt))))

proxied : client_ip true (codes " 9.8.7.6 , 1.2.3.4") [] (codes "5.5.5.5:80") ≡ codes "9.8.7.6"
unfolding client_ip
proxied = refl
