-- ===== src/Frontend/Decrypt/Columns.antt =====
-- The rewriting in place of a decrypted row leaves exactly its values, in their order.
use mathlib.Core.List.{append_assoc, append-nil}
use mathlib.Core.Option.{some-injective}
use go_hauk.Prelude.{
  length, set, drop_last, length-append, Text, ℕ, suc, ◌≡◌, refl, sym, ap, ◌∙◌, Option, none, some,
  List, [], ◌∷◌, ◌++◌, map, arith,
}
use go_hauk.Frontend.Number.{Float}
use go_hauk.Frontend.Decrypt.{
  SealedRow, Crypto, cons?, read_cell, read_cells, with_vector, decrypt_cell, decrypt_cells,
  open_row, byte_array, Cell, sealed, plain, parsed, write_values, rewrite_row,
}

set-append {ℓ} :
    {A : Type ℓ} (xs : List A) (y z : A) (ys : List A)
    → set (xs ++ y ∷ ys) (length xs) z ≡ xs ++ z ∷ ys
set-append [] y z ys = refl
set-append (x ∷ xs) y z ys = ap (λ t. x ∷ t) (set-append xs y z ys)

drop_last-append {ℓ} : {A : Type ℓ} (xs : List A) (y : A) → drop_last (xs ++ y ∷ []) ≡ xs
drop_last-append [] y = refl
drop_last-append (x ∷ []) y = refl
drop_last-append (x ∷ z ∷ xs) y = ap (λ t. x ∷ t) (drop_last-append (z ∷ xs) y)

module _ (F : Float) where
  abbrev pub plain_cells : (List ℕ → F.Num) → List (Option (List ℕ)) → List (Cell F)
  plain_cells parse [] = []
  plain_cells parse (v ∷ vs) = plain (parsed F parse v) ∷ plain_cells parse vs

  write_values-plain :
      (parse : List ℕ → F.Num) (vs : List (Option (List ℕ))) (done row : List (Cell F)) (c : Cell F)
      → length row ≡ length vs
      → (d : Cell F) × (write_values F parse (length done) vs (done ++ c ∷ row)
          ≡ (done ++ plain_cells parse vs) ++ d ∷ [])
  unfolding write_values
  write_values-plain parse [] done [] c e = (c, rw (append-nil done))
  write_values-plain parse [] done (x ∷ row) c e = absurd (omega arith)
  write_values-plain parse (v ∷ vs) done [] c e = absurd (omega arith)
  write_values-plain parse (v ∷ vs) done (x ∷ row) c e =
      let p : Cell F = plain (parsed F parse v) in
      let (d, ih) = write_values-plain parse vs (done ++ p ∷ []) row x (omega arith) in
      let e1 : length (done ++ p ∷ []) ≡ suc (length done) =
        omega (arith, length-append done (p ∷ [])) in
      let e2 : (done ++ p ∷ []) ++ x ∷ row ≡ done ++ p ∷ x ∷ row =
        append_assoc done (p ∷ []) (x ∷ row) in
      let e3 : (done ++ p ∷ []) ++ plain_cells parse vs ≡ done ++ p ∷ plain_cells parse vs =
        append_assoc done (p ∷ []) (plain_cells parse vs) in
      (d, rw (set-append done c p (x ∷ row)) (rw (e1, e2, e3) at ih))

  length-sealed : (cs : SealedRow) → length (map {B = Cell F} sealed cs) ≡ length cs
  length-sealed [] = refl
  length-sealed (c ∷ cs) = ap suc (length-sealed cs)

  module _ (C : Crypto F) (key : C.Key) where
    cons?-inverse :
        {A : Type 0} (o : Option A) (r : Option (List A)) (ys : List A)
        → cons? o r ≡ some ys
        → (x : A) × (xs : List A) × (o ≡ some x) × (r ≡ some xs) × (ys ≡ x ∷ xs)
    cons?-inverse none r ys e = absurd (ground (arith))
    cons?-inverse (some x) none ys e = absurd (ground (arith))
    cons?-inverse (some x) (some xs) ys e = (x, xs, refl, refl, sym (some-injective _ _ e))

    read_cells-length :
        (cs : SealedRow) (bs : List (Option (List ℕ)))
        → read_cells F C cs ≡ some bs
        → length bs ≡ length cs
    unfolding read_cells
    read_cells-length [] bs e = ap length (sym (some-injective _ _ e))
    read_cells-length (c ∷ cs) bs e =
        let (x, xs, h, t, q) = cons?-inverse (read_cell F C c) (read_cells F C cs) bs e in
        ap length q ∙ ap suc (read_cells-length cs xs t)

    decrypt_cells-length :
        (iv : List ℕ) (cs values : List (Option (List ℕ)))
        → decrypt_cells F C key iv cs ≡ some values
        → length values ≡ length cs
    unfolding decrypt_cells
    decrypt_cells-length iv [] values e = ap length (sym (some-injective _ _ e))
    decrypt_cells-length iv (c ∷ cs) values e =
        let (x, xs, h, t, q) =
          cons?-inverse (decrypt_cell F C key iv c) (decrypt_cells F C key iv cs) values e in
        ap length q ∙ ap suc (decrypt_cells-length iv cs xs t)

    open_row-length :
        (v : Text) (cs : SealedRow) (values : List (Option (List ℕ)))
        → open_row F C key (some v ∷ cs) ≡ some values
        → length values ≡ length cs
    unfolding open_row
    open_row-length v cs values e = go (byte_array F C v) (read_cells F C cs) refl e
      where
        go :
            (o : Option (List ℕ)) (r : Option (List (Option (List ℕ))))
            → read_cells F C cs ≡ r
            → elim (with_vector F C o r) [ none ↦ none | some b ↦ decrypt_cells F C key b.0 b.1 ]
              ≡ some values
            → length values ≡ length cs
        go none r h q = absurd (ground (arith))
        go (some iv) none h q = absurd (ground (arith))
        go (some iv) (some bs) h q = decrypt_cells-length iv bs values q ∙ read_cells-length cs bs h

    -- A row that was decrypted holds exactly the decrypted values after it was rewritten in place: the
    -- vector is gone, each value has moved to the front by one, and `null` cells stay `null`.
    pub rewrite_row-plain :
        (v : Text) (cs : SealedRow) (values : List (Option (List ℕ)))
        → open_row F C key (some v ∷ cs) ≡ some values
        → rewrite_row F C.parse (some v ∷ cs) values ≡ plain_cells C.parse values
    unfolding rewrite_row
    rewrite_row-plain v cs values e =
        let e' : length (map {B = Cell F} sealed cs) ≡ length values =
          length-sealed cs ∙ sym (open_row-length v cs values e) in
        let (d, h) = write_values-plain C.parse values [] (map sealed cs) (sealed (some v)) e' in
        ap drop_last h ∙ drop_last-append (plain_cells C.parse values) d
