-- ===== src/Frontend/Decrypt/RoundTrip.antt =====
-- What the sender sealed, the page reads.
use go_hauk.Prelude.{
  length, All, Text, ℕ, ◌%◌, ◌<◌, ◌≡◌, refl, ap, Option, none, some, List, [], ◌∷◌, map, arith,
}
use go_hauk.Frontend.Number.{Float}
use go_hauk.Frontend.Decrypt.{
  SealedRow, SealedBytes, Crypto, cons?, read_cell, read_cells, with_vector, read_rows,
  decrypt_cell, decrypt_cells, decrypt_rows, open_rows, byte_array, bytes,
}

-- Whether each number is a byte.
abbrev pub IsBytes : List ℕ → Type 0
IsBytes bs = All (λ b. b < 256) bs

-- A vector of AES-CBC: 16 bytes.
abbrev pub IsVector : List ℕ → Type 0
IsVector iv = IsBytes iv × (length iv ≡ 16)

-- A cell that is not `null` is a list of bytes.
abbrev pub CellBytes : Option (List ℕ) → Type 0
CellBytes none = Unit
CellBytes (some m) = IsBytes m

bytes-IsBytes : (bs : List ℕ) → IsBytes bs → bytes bs ≡ bs
unfolding bytes
bytes-IsBytes [] h = refl
bytes-IsBytes (b ∷ bs) h = let e : b % 256 ≡ b = omega arith in rw (e, bytes-IsBytes bs h.1)

module _ (F : Float) (C : Crypto F) where
  -- A sender whose base64 and cipher the page's undo: `atob` gives back the bytes that `btoa` wrote,
  -- and a cell that was encrypted with the key and a vector of 16 bytes is decrypted with them.
  pub record Sender : Type 0 where
    pub btoa : List ℕ → Text
    pub encrypt : C.Key → List ℕ → List ℕ → List ℕ
    pub atob-btoa : (bs : List ℕ) → IsBytes bs → C.atob (btoa bs) ≡ some bs
    pub encrypt-IsBytes : (k : C.Key) (iv m : List ℕ) → IsBytes m → IsBytes (encrypt k iv m)
    pub decrypt-encrypt :
        (k : C.Key) (iv m : List ℕ)
        → IsVector iv
        → IsBytes m
        → C.decrypt k iv (encrypt k iv m) ≡ some m

  module _ (S : Sender) (key : C.Key) where
    abbrev pub seal_cell : List ℕ → Option (List ℕ) → Option Text
    seal_cell iv none = none
    seal_cell iv (some m) = some (S.btoa (S.encrypt key iv m))

    abbrev pub seal_cells : List ℕ → List (Option (List ℕ)) → SealedRow
    seal_cells iv [] = []
    seal_cells iv (c ∷ cs) = seal_cell iv c ∷ seal_cells iv cs

    -- A row as the sender posts it: the vector, and the cells encrypted with it.
    unfoldable pub seal_row : List ℕ × List (Option (List ℕ)) → SealedRow
    seal_row (iv, cells) = some (S.btoa iv) ∷ seal_cells iv cells

    byte_array-btoa : (bs : List ℕ) → IsBytes bs → byte_array F C (S.btoa bs) ≡ some bs
    unfolding byte_array
    byte_array-btoa bs h = rw (S.atob-btoa bs h, byte_array) (ap some (bytes-IsBytes bs h))

    -- The bytes of a cell and of the cells that were sealed.
    abbrev cell_bytes : List ℕ → Option (List ℕ) → Option (List ℕ)
    cell_bytes iv none = none
    cell_bytes iv (some m) = some (S.encrypt key iv m)

    read_cells-seal :
        (iv : List ℕ) (cs : List (Option (List ℕ)))
        → All CellBytes cs
        → read_cells F C (seal_cells iv cs) ≡ some (map (cell_bytes iv) cs)
    unfolding read_cells
    read_cells-seal iv [] h = refl
    read_cells-seal iv (none ∷ cs) h = rw (read_cells-seal iv cs h.1, cons?)
    read_cells-seal iv (some m ∷ cs) h =
        rw (byte_array-btoa (S.encrypt key iv m) (S.encrypt-IsBytes key iv m h.0), read_cell)
          (rw (read_cells-seal iv cs h.1, cons?))

    decrypt_cells-seal :
        (iv : List ℕ) (cs : List (Option (List ℕ)))
        → IsVector iv
        → All CellBytes cs
        → decrypt_cells F C key iv (map (cell_bytes iv) cs) ≡ some cs
    unfolding decrypt_cells
    decrypt_cells-seal iv [] v h = refl
    decrypt_cells-seal iv (none ∷ cs) v h = rw (decrypt_cells-seal iv cs v h.1, cons?)
    decrypt_cells-seal iv (some m ∷ cs) v h =
        rw (S.decrypt-encrypt key iv m v h.0, decrypt_cell)
          (rw (decrypt_cells-seal iv cs v h.1, cons?))

    -- The bytes of a row that was sealed.
    abbrev row_bytes : List ℕ × List (Option (List ℕ)) → SealedBytes
    row_bytes (iv, cells) = (iv, map (cell_bytes iv) cells)

    -- The vectors of all rows are vectors of the cipher, and their cells are bytes.
    abbrev pub AllBytes : List (List ℕ × List (Option (List ℕ))) → Type 0
    AllBytes [] = Unit
    AllBytes (r ∷ rs) = IsVector r.0 × All CellBytes r.1 × AllBytes rs

    read_rows-seal :
        (rs : List (List ℕ × List (Option (List ℕ))))
        → AllBytes rs
        → read_rows F C (map seal_row rs) ≡ some (map row_bytes rs)
    unfolding read_rows seal_row
    read_rows-seal [] h = refl
    read_rows-seal ((iv, cells) ∷ rs) h =
        rw (byte_array-btoa iv h.0.0, read_cells-seal iv cells h.1, with_vector)
          (rw (read_rows-seal rs h.2, cons?))

    decrypt_rows-seal :
        (rs : List (List ℕ × List (Option (List ℕ))))
        → AllBytes rs
        → decrypt_rows F C key (map row_bytes rs) ≡ some (map (λ r. r.1) rs)
    unfolding decrypt_rows
    decrypt_rows-seal [] h = refl
    decrypt_rows-seal ((iv, cells) ∷ rs) h =
        rw (decrypt_cells-seal iv cells h.0 h.1, cons?) (rw (decrypt_rows-seal rs h.2))

    -- Rows that were sealed with a key, each with its own vector of 16 bytes, are decrypted with it to
    -- their cells, which are bytes, `null` cells included.
    pub open_rows-seal_row :
        (rs : List (List ℕ × List (Option (List ℕ))))
        → AllBytes rs
        → open_rows F C key (map seal_row rs) ≡ some (map (λ r. r.1) rs)
    unfolding open_rows
    open_rows-seal_row rs h = rw (read_rows-seal rs h, open_rows) (decrypt_rows-seal rs h)
