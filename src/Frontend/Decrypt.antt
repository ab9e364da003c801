-- ===== src/Frontend/Decrypt.antt =====
-- End-to-end encrypted shares in frontend/main.js: `byteArray`, the decryption of the points, and the
-- prompt for the password. WebCrypto, `atob`, `parseFloat` and `TextDecoder` are parameters.
pub mod Columns
pub mod RoundTrip
mod Tests
use go_hauk.Prelude.{
  codes, set, drop_last, Text, ℕ, suc, ◌%◌, Option, none, some, List, [], ◌∷◌, map,
}
use go_hauk.Frontend.Number.{Float}
use go_hauk.Frontend.Trail.{Row}

-- A sealed row: the initialization vector and the encrypted cells, in base64; a cell may be `null`.
abbrev pub SealedRow : Type 0
SealedRow = List (Option Text)

-- A row in bytes: the vector and the cells.
abbrev pub SealedBytes : Type 0
SealedBytes = List ℕ × List (Option (List ℕ))

-- The loop of `byteArray`: an element of a `Uint8Array` keeps the low eight bits.
unfoldable pub bytes : Text → List ℕ
bytes [] = []
bytes (c ∷ cs) = c % 256 ∷ bytes cs

-- All or nothing: what `Promise.all` and an exception in a loop have in common.
abbrev pub cons? {ℓ} : {A : Type ℓ} → Option A → Option (List A) → Option (List A)
cons? none r = none
cons? (some x) none = none
cons? (some x) (some xs) = some (x ∷ xs)

module _ (F : Float) where
  pub record Crypto : Type 1 where
    pub Key : Type 0
    -- `atob`; `none` where it throws.
    pub atob : Text → Option Text
    -- `deriveKey` with PBKDF2, from a password and a salt.
    pub derive : Text → List ℕ → Key
    -- `crypto.subtle.decrypt` with a key and an initialization vector; `none` is a rejected promise.
    pub decrypt : Key → List ℕ → List ℕ → Option (List ℕ)
    -- `parseFloat` of the decoded text.
    pub parse : List ℕ → F.Num

  module _ (C : Crypto) where
    -- `byteArray`
    unfoldable pub byte_array : Text → Option (List ℕ)
    unfolding bytes
    byte_array t = elim (C.atob t) [ none ↦ none | some raw ↦ some (bytes raw) ]

    -- The bytes of an encrypted cell: the inner `none` is a `null` cell; the outer one, here and in what
    -- follows, is an exception of `byteArray`, which ends `processUpdate` at once.
    unfoldable pub read_cell : Option Text → Option (Option (List ℕ))
    unfolding byte_array
    read_cell none = some none
    read_cell (some t) = elim (byte_array t) [ none ↦ none | some b ↦ some (some b) ]

    unfoldable pub read_cells : SealedRow → Option (List (Option (List ℕ)))
    unfolding read_cell
    read_cells [] = some []
    read_cells (c ∷ cs) = cons? (read_cell c) (read_cells cs)

    abbrev pub with_vector : Option (List ℕ) → Option (List (Option (List ℕ))) → Option SealedBytes
    with_vector none r = none
    with_vector (some iv) none = none
    with_vector (some iv) (some cs) = some (iv, cs)

    -- A row in bytes. Without a vector `atob` is given the name of `null` or `undefined`.
    unfoldable pub read_row : SealedRow → Option SealedBytes
    unfolding read_cells
    read_row [] = with_vector (byte_array (codes "undefined")) (some [])
    read_row (none ∷ cs) = with_vector (byte_array (codes "null")) (read_cells cs)
    read_row (some v ∷ cs) = with_vector (byte_array v) (read_cells cs)

    -- All that the two loops give to `byteArray`.
    unfoldable pub read_rows : List SealedRow → Option (List SealedBytes)
    unfolding read_row
    read_rows [] = some []
    read_rows (r ∷ rs) = cons? (read_row r) (read_rows rs)

    -- The promise of a cell; from here on the outer `none` is a promise that is rejected.
    unfoldable pub decrypt_cell : C.Key → List ℕ → Option (List ℕ) → Option (Option (List ℕ))
    decrypt_cell key iv none = some none
    decrypt_cell key iv (some b) = elim (C.decrypt key iv b) [
      | none ↦ none
      | some p ↦ some (some p)
    ]

    -- `Promise.all` of the promises of a row, and of those of all rows: all values, or a rejection.
    unfoldable pub decrypt_cells :
        C.Key → List ℕ → List (Option (List ℕ)) → Option (List (Option (List ℕ)))
    unfolding decrypt_cell
    decrypt_cells key iv [] = some []
    decrypt_cells key iv (c ∷ cs) = cons? (decrypt_cell key iv c) (decrypt_cells key iv cs)

    unfoldable pub decrypt_rows : C.Key → List SealedBytes → Option (List (List (Option (List ℕ))))
    unfolding decrypt_cells
    decrypt_rows key [] = some []
    decrypt_rows key ((iv, cs) ∷ rs) = cons? (decrypt_cells key iv cs) (decrypt_rows key rs)

    -- A row and all rows, from the texts to the values, where nothing throws and nothing is rejected.
    unfoldable pub open_row : C.Key → SealedRow → Option (List (Option (List ℕ)))
    unfolding read_row decrypt_cells
    open_row key r = elim (read_row r) [ none ↦ none | some b ↦ decrypt_cells key b.0 b.1 ]

    unfoldable pub open_rows : C.Key → List SealedRow → Option (List (List (Option (List ℕ))))
    unfolding read_rows decrypt_rows
    open_rows key rs = elim (read_rows rs) [ none ↦ none | some bs ↦ decrypt_rows key bs ]

  -- A cell of `data.points` while it is rewritten: still sealed, or a number.
  pub data Cell : Type 0 where
    sealed : Option Text → Cell
    plain : Option F.Num → Cell

  abbrev parsed : (List ℕ → F.Num) → Option (List ℕ) → Option F.Num
  parsed parse none = none
  parsed parse (some b) = some (parse b)

  -- The inner loop that writes the values from index `j` on: `data.points[i][j] = ...`.
  unfoldable pub write_values :
      (List ℕ → F.Num) → ℕ → List (Option (List ℕ)) → List Cell → List Cell
  write_values parse j [] row = row
  write_values parse j (v ∷ vs) row =
      write_values parse (suc j) vs (set row j (plain (parsed parse v)))

  -- A row after the loop and `data.points[i].pop()`.
  unfoldable pub rewrite_row : (List ℕ → F.Num) → SealedRow → List (Option (List ℕ)) → List Cell
  unfolding write_values
  rewrite_row parse row values = drop_last (write_values parse 0 values (map sealed row))
