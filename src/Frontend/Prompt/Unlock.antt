-- ===== src/Frontend/Prompt/Unlock.antt =====
-- From a sealed answer to the map: what the right and the wrong password do.
use go_hauk.Prelude.{
  Text, ℕ, ◌≡◌, refl, sym, ◌⊎◌, inl, inr, arith, ap, ◌∙◌, true, false, Option, none, some, List, [],
  ◌∷◌,
}
use go_hauk.Frontend.Number.{Float}
use go_hauk.Frontend.Update.{alone}
use go_hauk.Frontend.Decrypt.{
  SealedRow, SealedBytes, Crypto, byte_array, read_rows, decrypt_rows, open_rows,
}
use go_hauk.Frontend.Prompt.{locked, Answer, State, on_settled, rewrite_rows}
use go_hauk.Frontend.Prompt.Entered.{
  able, enter, enter-deriving, opening_lem, stuck_lem, stuck_settled, drawn_lem, asked_again_lem,
}

module _ (F : Float) (C : Crypto F) (H : Type 0) where
  open_rows-read :
      (key : C.Key) (rows : List SealedRow) (o : Option (List (List (Option (List ℕ)))))
      → open_rows F C key rows ≡ o
      → ((read_rows F C rows ≡ none) × (o ≡ none))
        ⊎ ((bs : List SealedBytes) × (read_rows F C rows ≡ some bs) × (decrypt_rows F C key bs ≡ o))
  unfolding open_rows
  open_rows-read key rows o e = go (read_rows F C rows) refl e
    where
      go :
          (r : Option (List SealedBytes))
          → read_rows F C rows ≡ r
          → elim r [ none ↦ none | some bs ↦ decrypt_rows F C key bs ] ≡ o
          → ((read_rows F C rows ≡ none) × (o ≡ none))
            ⊎ ((bs : List SealedBytes) × (read_rows F C rows ≡ some bs)
                × (decrypt_rows F C key bs ≡ o))
      go none h q = inl (h, sym q)
      go (some bs) h q = inr (bs, h, q)

  -- With a password whose key opens the points, they are drawn once, in the clear and for the first
  -- time; no handler and no job is left, the prompt is gone and the key is kept.
  pub enter-opens :
      (password salt_text : Text) (salt : List ℕ) (h : H) (rows : List SealedRow)
      (values : List (List (Option (List ℕ))))
      → byte_array F C salt_text ≡ some salt
      → open_rows F C (C.derive password salt) rows ≡ some values
      → let s = enter F C H password (record { header = h; body = locked salt_text rows }) in
        (s.drawn ≡ (h, alone (rewrite_rows F C H rows values), true) ∷ [])
        × (s.handlers ≡ [])
        × (s.jobs ≡ [])
        × (s.prompt ≡ false)
        × (s.key ≡ some (C.derive password salt))
  enter-opens password salt_text salt h rows values es eo =
      elim (open_rows-read (C.derive password salt) rows (some values) eo) [
        | inl (_, q) ↦ absurd (ground (arith))
        | inr (bs, r, d) ↦
            rw
              (enter-deriving F C H password salt_text salt h rows es
                ∙ ap (on_settled F C H able) (opening_lem F C H password salt_text salt h rows bs r)
                ∙ drawn_lem F C H password salt_text salt h rows bs values d)
              (refl, refl, refl, refl, refl)
      ]

  -- Nothing is drawn, the key is dropped and the viewer is asked again, with the label that says so, by
  -- one handler for the same answer.
  abbrev pub AskedAgain : Answer F C H → Text → State F C H → Type 0
  AskedAgain a salt_text s =
      (s.drawn ≡ [])
      × (s.key ≡ none)
      × (s.prompt ≡ true)
      × (s.label_incorrect ≡ true)
      × (s.jobs ≡ [])
      × (s.handlers ≡ record { handler_id = 1; answer = a; salt = salt_text; init = true } ∷ [])

  -- An exception has ended the script's work on the answer: nothing is drawn and nobody is asked, with
  -- the key in place.
  abbrev pub LeftStuck : C.Key → State F C H → Type 0
  LeftStuck k s =
      (s.thrown ≡ true)
      × (s.drawn ≡ [])
      × (s.key ≡ some k)
      × (s.prompt ≡ false)
      × (s.jobs ≡ [])
      × (s.handlers ≡ [])

  -- With a password whose key does not open the points nothing is drawn. If all texts of the points
  -- are base64, the key is dropped and the viewer is asked again, with the label that says so, by one
  -- handler for the same answer. Otherwise an exception ends the work on the answer: the key is kept,
  -- and nobody is asked again.
  pub enter_fails :
      (password salt_text : Text) (salt : List ℕ) (h : H) (rows : List SealedRow)
      → byte_array F C salt_text ≡ some salt
      → open_rows F C (C.derive password salt) rows ≡ none
      → let a : Answer F C H = record { header = h; body = locked salt_text rows } in
        (((bs : List SealedBytes) × (read_rows F C rows ≡ some bs))
          × AskedAgain a salt_text (enter F C H password a))
        ⊎ ((read_rows F C rows ≡ none)
            × LeftStuck (C.derive password salt) (enter F C H password a))
  enter_fails password salt_text salt h rows es eo =
      elim (open_rows-read (C.derive password salt) rows none eo) [
        | inl (r, _) ↦ inr (
          r,
          rw
              (enter-deriving F C H password salt_text salt h rows es
                ∙ ap (on_settled F C H able) (stuck_lem F C H password salt_text salt h rows r)
                ∙ stuck_settled F C H password salt_text salt h rows)
              (refl, refl, refl, refl, refl, refl),
        )
        | inr (bs, r, d) ↦ inl (
          (bs, r),
          rw
              (enter-deriving F C H password salt_text salt h rows es
                ∙ ap (on_settled F C H able) (opening_lem F C H password salt_text salt h rows bs r)
                ∙ asked_again_lem F C H password salt_text salt h rows bs d)
              (refl, refl, refl, refl, refl, refl),
        )
      ]
