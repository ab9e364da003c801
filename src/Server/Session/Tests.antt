-- ===== src/Server/Session/Tests.antt =====
-- A session that a phone sends points to, and the theorems at it.
use go_hauk.Prelude.{codes, text_eq, ℕ, ◌≡◌, refl, true, none, some, List, [], ◌∷◌, arith}
use go_hauk.Frontend.Number.{whole}
use go_hauk.Server.Session.{
  Cell, null, num, Session, new_session, add_target, remove_target, has_expired, add_points,
  get_points,
}
use go_hauk.Server.Session.Window.{add_points-suffix}

abbrev point : ℕ → List (Cell whole)
point t = num t ∷ num t ∷ num t ∷ num 0 ∷ null ∷ null ∷ []

abbrev points : List (List (Cell whole))
points = point 1 ∷ point 2 ∷ point 3 ∷ []

abbrev session : Session whole
session = new_session whole (codes "5e") 2

abbrev sent : Session whole
sent = record (session) { points = point 2 ∷ point 3 ∷ [] }

expired : has_expired whole 0 session ≡ true
unfolding has_expired
expired = refl

retargeted :
    (remove_target whole
      (codes "a")
      (add_target whole (codes "b") (add_target whole (codes "a") session))).targets
    ≡ codes "b" ∷ []
unfolding remove_target add_target text_eq
retargeted = refl

-- As in the tests of model/session.go.
newest : get_points whole 2 sent ≡ some (point 3 ∷ [])
unfolding get_points
newest = refl

none_newer : get_points whole 3 sent ≡ none
unfolding get_points
none_newer = refl

add_points-suffix_example : (add_points whole points session).points ≡ point 2 ∷ point 3 ∷ []
add_points-suffix_example = add_points-suffix whole points session (omega arith)
