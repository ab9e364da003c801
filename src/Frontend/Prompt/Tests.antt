-- ===== src/Frontend/Prompt/Tests.antt =====
-- A sealed answer, and the theorems at it.
use go_hauk.Prelude.{
  map, ◌⊎◌, ◌==◌, if◌then◌else◌, length, codes, ℕ, ◌≡◌, refl, true, false, Option, none, some, List,
  [], ◌∷◌,
}
use go_hauk.Frontend.Number.{whole}
use go_hauk.Frontend.Update.{alone}
use go_hauk.Frontend.Decrypt.{SealedRow, SealedBytes, Crypto, byte_array, read_rows, open_rows}
use go_hauk.Frontend.Prompt.{
  State, on_decrypt, on_settled, Answer, locked, locked_state, process_update, unavailable_secure,
  rewrite_rows,
}
use go_hauk.Frontend.Prompt.Entered.{able, enter}
use go_hauk.Frontend.Prompt.Unlock.{enter-opens, AskedAgain, LeftStuck, enter_fails}

abbrev toy_decrypt : ℕ → List ℕ → List ℕ → Option (List ℕ)
toy_decrypt k iv [] = none
toy_decrypt k iv (c ∷ m) = if c == k then some m else none

-- A toy cipher: the key is the length of the password, and stands in front of the message. The empty
-- text is no base64 here.
abbrev toy : Crypto whole
toy = record {
  Key = ℕ;
  atob = elim [ [] ↦ none | c ∷ t ↦ some (c ∷ t) ];
  derive = λ password salt. length password;
  decrypt = toy_decrypt;
  parse = λ bs. length bs;
}

abbrev sealed_rows : List SealedRow
sealed_rows = (some (9 ∷ []) ∷ some (3 ∷ 1 ∷ []) ∷ none ∷ []) ∷ []

abbrev answer : Answer whole toy ℕ
answer = record { header = 7; body = locked (1 ∷ []) sealed_rows }

insecure :
    (process_update whole toy ℕ
      (record { crypto = true; subtle = false; secure = false; elements = true })
      answer
      true
      (locked_state whole toy ℕ)).notice
    ≡ some unavailable_secure
unfolding process_update
insecure = refl

abbrev values : List (List (Option (List ℕ)))
values = (some (1 ∷ []) ∷ none ∷ []) ∷ []

enter-opens_example :
    ((enter whole toy ℕ (codes "abc") answer).drawn
      ≡ (7, alone (rewrite_rows whole toy ℕ sealed_rows values), true) ∷ [])
    × ((enter whole toy ℕ (codes "abc") answer).handlers ≡ [])
    × ((enter whole toy ℕ (codes "abc") answer).jobs ≡ [])
    × ((enter whole toy ℕ (codes "abc") answer).prompt ≡ false)
    × ((enter whole toy ℕ (codes "abc") answer).key ≡ some 3)
unfolding open_rows byte_array
enter-opens_example =
    enter-opens whole toy ℕ (codes "abc") (1 ∷ []) (1 ∷ []) 7 sealed_rows values refl refl

enter_fails_example :
    (((bs : List SealedBytes) × (read_rows whole toy sealed_rows ≡ some bs))
      × AskedAgain whole toy ℕ answer (1 ∷ []) (enter whole toy ℕ (codes "ab") answer))
    ⊎ ((read_rows whole toy sealed_rows ≡ none)
        × LeftStuck whole toy ℕ 2 (enter whole toy ℕ (codes "ab") answer))
unfolding open_rows byte_array
enter_fails_example = enter_fails whole toy ℕ (codes "ab") (1 ∷ []) (1 ∷ []) 7 sealed_rows refl refl

-- A cell that is no base64.
abbrev malformed : Answer whole toy ℕ
malformed = record { header = 7; body = locked (1 ∷ []) ((some (9 ∷ []) ∷ some [] ∷ []) ∷ []) }

left_stuck :
    ((enter whole toy ℕ (codes "abc") malformed).key ≡ some 3)
    × ((enter whole toy ℕ (codes "abc") malformed).thrown ≡ true)
    × ((enter whole toy ℕ (codes "abc") malformed).prompt ≡ false)
unfolding enter process_update on_decrypt on_settled read_rows byte_array
left_stuck = (refl, refl, refl)

-- With two handlers a click runs the first, which removes the second and stays itself.
abbrev twice : State whole toy ℕ
twice =
    process_update whole toy ℕ able answer true
      (process_update whole toy ℕ able answer true (locked_state whole toy ℕ))

one_runs :
    (length (on_decrypt whole toy ℕ (codes "abc") twice).jobs ≡ 1)
    × (map (λ h. h.handler_id) (on_decrypt whole toy ℕ (codes "abc") twice).handlers ≡ 0 ∷ [])
unfolding process_update on_decrypt byte_array
one_runs = (refl, refl)
