-- ===== src/Server/Linkgen/Tests.antt =====
-- Ids made of some bytes, and the theorems at them.
use go_hauk.Prelude.{
  Option, some, drop, All, Text, codes, text_eq, index_of, ℕ, ◌+◌, ◌*◌, ◌/◌, ◌<◌, ◌≡◌, refl, ◌↔◌,
  Bool, true, List, [], ◌∷◌, ◌++◌, arith,
}
use go_hauk.Frontend.Link.{view_link, init, request, fetch_url}
use go_hauk.Server.Linkgen.{
  link_4_plus_4_upper, link_uuid_v4, is_accepted, rand_int, make, generate,
}
use go_hauk.Server.Linkgen.Texts.{IsByte}
use go_hauk.Server.Linkgen.Shape.{Yields, IsNew, generate-Yields}
use go_hauk.Server.Linkgen.Open.{init-generate}
use go_hauk.Server.Linkgen.Fair.{rand_int-fair}
use go_hauk.Server.Linkgen.First.{IsFirst, generate-IsFirst}

abbrev random : List ℕ
random = 0 ∷ 1 ∷ 2 ∷ 255 ∷ 3 ∷ 34 ∷ 35 ∷ 36 ∷ 37 ∷ 9 ∷ 9 ∷ 9 ∷ 9 ∷ 9 ∷ 9 ∷ 9 ∷ 9 ∷ []

-- The byte 255 is not accepted.
first_id : make link_4_plus_4_upper random ≡ some (codes "1234-1234", drop 9 random)
unfolding make
first_id = refl

uuid : make link_uuid_v4 random ≡ some (codes "000102ff-0322-4324-a509-090909090909", 9 ∷ [])
unfolding make
uuid = refl

abbrev is_first : Text → Option Bool
is_first s = some (text_eq s (codes "1234-1234"))

second_id : generate is_first link_4_plus_4_upper 2 random ≡ some (codes "AAAA-AAAA", [])
unfolding generate text_eq
second_id = refl

random-IsByte : All IsByte random
random-IsByte = (
  omega arith,
  (
    omega arith,
    (
      omega arith,
      (
        omega arith,
        (
          omega arith,
          (
            omega arith,
            (
              omega arith,
              (
                omega arith,
                (
                  omega arith,
                  (
                    omega arith,
                    (
                      omega arith,
                      (
                        omega arith,
                        (
                          omega arith,
                          (omega arith, (omega arith, (omega arith, (omega arith, tt)))),
                        ),
                      ),
                    ),
                  ),
                ),
              ),
            ),
          ),
        ),
      ),
    ),
  ),
)

generate-Yields_example :
    Yields (IsNew is_first link_4_plus_4_upper) (generate is_first link_4_plus_4_upper 2 random)
generate-Yields_example = generate-Yields is_first link_4_plus_4_upper 2 random random-IsByte

generate-IsFirst_example :
    (generate is_first link_4_plus_4_upper 2 random ≡ some (codes "AAAA-AAAA", []))
    ↔ IsFirst is_first link_4_plus_4_upper 2 random (codes "AAAA-AAAA") []
generate-IsFirst_example =
    generate-IsFirst is_first link_4_plus_4_upper 2 random (codes "AAAA-AAAA") []

init-generate_example :
    init (view_link (codes "https://x.org/") (codes "AAAA-AAAA") ++ codes "&lang=en")
    ≡ request (fetch_url (codes "AAAA-AAAA"))
unfolding index_of
init-generate_example =
    init-generate is_first link_4_plus_4_upper 2 random [] (codes "https://x.org/")
      (codes "AAAA-AAAA") (codes "&lang=en") random-IsByte second_id refl refl

rand_int-fair_example :
    ((is_accepted 34 37 ≡ true) × (rand_int 34 (37 ∷ random) ≡ some (3, random)))
    ↔ ((q : ℕ) × (q < 256 / 34) × (37 ≡ q * 34 + 3))
rand_int-fair_example = rand_int-fair 34 3 37 random (omega arith)
