-- ===== src/Frontend/Decrypt/Tests.antt =====
-- A toy cipher, which puts a byte made of the key and the vector in front of the message, and the theorems at it.
use go_hauk.Prelude.{
  ◌&&◌, ◌+◌, ◌==◌, if◌then◌else◌, length, ℕ, ◌%◌, ◌≡◌, refl, Option, none, some, List, [], ◌∷◌, map,
  arith,
}
use go_hauk.Frontend.Number.{whole}
use go_hauk.Frontend.Decrypt.{SealedRow, Crypto, open_row, open_rows, byte_array, rewrite_row}
use go_hauk.Frontend.Decrypt.Columns.{plain_cells, rewrite_row-plain}
use go_hauk.Frontend.Decrypt.RoundTrip.{IsBytes, IsVector, Sender, seal_row, open_rows-seal_row}

-- The byte that the key and the vector make.
abbrev sum : List ℕ → ℕ
sum [] = 0
sum (b ∷ bs) = b + sum bs

abbrev toy_tag : ℕ → List ℕ → ℕ
toy_tag k iv = (k + sum iv) % 256

abbrev toy_decrypt : ℕ → List ℕ → List ℕ → Option (List ℕ)
toy_decrypt k iv [] = none
toy_decrypt k iv (c ∷ m) = if length iv == 16 && c == toy_tag k iv then some m else none

abbrev pub toy : Crypto whole
toy = record {
  Key = ℕ;
  atob = some;
  derive = λ password salt. length password;
  decrypt = toy_decrypt;
  parse = λ bs. length bs;
}

toy-IsBytes : (k : ℕ) (iv m : List ℕ) → IsBytes m → IsBytes (toy_tag k iv ∷ m)
toy-IsBytes k iv m h = (omega arith, h)

toy_opens :
    (k : ℕ) (iv m : List ℕ) → IsVector iv → IsBytes m → toy_decrypt k iv (toy_tag k iv ∷ m) ≡ some m
toy_opens k iv m v h = ground (arith, v.1)

abbrev toy_sender : Sender whole toy
toy_sender = record {
  btoa = λ bs. bs;
  encrypt = λ k iv m. toy_tag k iv ∷ m;
  atob-btoa = λ bs h. refl;
  encrypt-IsBytes = toy-IsBytes;
  decrypt-encrypt = toy_opens;
}

-- Sixteen times the byte.
abbrev vector : ℕ → List ℕ
vector b = b ∷ b ∷ b ∷ b ∷ b ∷ b ∷ b ∷ b ∷ b ∷ b ∷ b ∷ b ∷ b ∷ b ∷ b ∷ b ∷ []

abbrev rows : List (List ℕ × List (Option (List ℕ)))
rows = (vector 9, some (1 ∷ []) ∷ none ∷ some (2 ∷ 3 ∷ []) ∷ []) ∷ (vector 8, []) ∷ []

open_rows-seal_row_example :
    open_rows whole toy 5 (map (seal_row whole toy toy_sender 5) rows) ≡ some (map (λ r. r.1) rows)
open_rows-seal_row_example = open_rows-seal_row whole toy toy_sender 5 rows (omega arith)

abbrev sealed_row : SealedRow
sealed_row = some (vector 9) ∷ some (149 ∷ 1 ∷ []) ∷ none ∷ []

abbrev values : List (Option (List ℕ))
values = some (1 ∷ []) ∷ none ∷ []

rewrite_row-plain_example :
    rewrite_row whole toy.parse sealed_row values ≡ plain_cells whole toy.parse values
unfolding open_row byte_array
rewrite_row-plain_example =
    rewrite_row-plain whole toy 5 (vector 9) (some (149 ∷ 1 ∷ []) ∷ none ∷ []) values refl
