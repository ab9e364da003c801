-- ===== src/Server/Store/Tests.antt =====
-- A store that is written to, and the theorem at it.
use go_hauk.Prelude.{codes, text_eq, lookup, insert, ℕ, ◌≡◌, refl, none, some, List, [], ◌∷◌}
use go_hauk.Server.Store.{empty, get, put, put_ttl, delete}
use go_hauk.Server.Store.Refined.{
  Write, set_key, set_key_ttl, delete_key, clear_all, writes, promises, kept, writes-promises,
}

abbrev some_writes : List (Write ℕ)
some_writes =
    set_key (codes "a") 1 10
    ∷ clear_all
    ∷ set_key (codes "a") 2 10
    ∷ set_key_ttl 5 (codes "b") 3 10
    ∷ set_key (codes "a") 4 20
    ∷ delete_key (codes "b")
    ∷ []

still_there : get 20 (codes "a") (writes some_writes empty) ≡ some 4
unfolding writes get put put_ttl delete lookup insert text_eq
still_there = refl

too_late : get 21 (codes "a") (writes some_writes empty) ≡ none
unfolding writes get put put_ttl delete lookup insert text_eq
too_late = refl

deleted : get 0 (codes "b") (writes some_writes empty) ≡ none
unfolding writes get put put_ttl delete lookup insert text_eq
deleted = refl

writes-promises_example :
    get 20 (codes "a") (writes some_writes empty)
    ≡ kept 20 (promises some_writes (λ j. none) (codes "a"))
writes-promises_example = writes-promises some_writes 20 (codes "a")
