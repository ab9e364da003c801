-- ===== src/Frontend/Prompt/Entered.antt =====
-- From a sealed answer to the map, step by step: the states that the prompt comes through.
use go_hauk.Prelude.{Text, ℕ, ◌≡◌, refl, ap, ◌∙◌, true, false, Option, none, some, List, [], ◌∷◌}
use go_hauk.Frontend.Number.{Float}
use go_hauk.Frontend.Update.{alone}
use go_hauk.Frontend.Decrypt.{SealedRow, SealedBytes, Crypto, byte_array, read_rows, decrypt_rows}
use go_hauk.Frontend.Prompt.{
  Browser, locked, Answer, State, process_update, on_decrypt, on_settled, locked_state, Handler,
  derive_key, open_points, rewrite_rows, derive_from, begin_opening, opened,
}

-- A browser with all that encrypted shares want.
abbrev pub able : Browser
able = record { crypto = true; subtle = true; secure = true; elements = true }

module _ (F : Float) (C : Crypto F) (H : Type 0) where
  -- The first answer arrives, the viewer enters a password, the key is derived, and the points are
  -- decrypted or not.
  unfoldable pub enter : Text → Answer F C H → State F C H
  enter password a = on_settled F C H able (
      on_settled F C H able
        (on_decrypt F C H password (process_update F C H able a true (locked_state F C H))))

  module _ (password salt_text : Text) (salt : List ℕ) (h : H) (rows : List SealedRow) where
    abbrev pub the_answer : Answer F C H
    the_answer = record { header = h; body = locked salt_text rows }

    abbrev pub handler : ℕ → Handler F C H
    handler i = record { handler_id = i; answer = the_answer; salt = salt_text; init = true }

    -- The viewer is asked.
    abbrev asked : State F C H
    asked = record (locked_state F C H) {
      accept = some 0;
      handlers = handler 0 ∷ [];
      prompt = true;
      next_id = 1;
    }

    -- The key is being derived.
    abbrev pub deriving_key : State F C H
    deriving_key = record asked {
      handlers = [];
      prompt = false;
      label_incorrect = true;
      jobs = derive_key password salt the_answer true ∷ [];
    }

    -- The points are being decrypted.
    abbrev pub opening : List SealedBytes → State F C H
    opening bs = record deriving_key {
      key = some (C.derive password salt);
      jobs = open_points (C.derive password salt) the_answer rows bs true ∷ [];
    }

    -- `byteArray` has thrown.
    abbrev pub stuck : State F C H
    stuck = record deriving_key { key = some (C.derive password salt); jobs = []; thrown = true }

    asked_lem : process_update F C H able the_answer true (locked_state F C H) ≡ asked
    unfolding process_update
    asked_lem = refl

    deriving_lem :
        byte_array F C salt_text ≡ some salt → on_decrypt F C H password asked ≡ deriving_key
    unfolding on_decrypt
    deriving_lem e = rw (e, derive_from)

    pub opening_lem :
        (bs : List SealedBytes)
        → read_rows F C rows ≡ some bs
        → on_settled F C H able deriving_key ≡ opening bs
    unfolding on_settled
    opening_lem bs e = rw (e, begin_opening)

    pub stuck_lem : read_rows F C rows ≡ none → on_settled F C H able deriving_key ≡ stuck
    unfolding on_settled
    stuck_lem e = rw (e, begin_opening)

    pub enter-deriving :
        byte_array F C salt_text ≡ some salt
        → enter password the_answer ≡ on_settled F C H able (on_settled F C H able deriving_key)
    unfolding enter
    enter-deriving e =
        ap (λ s. on_settled F C H able (on_settled F C H able (on_decrypt F C H password s)))
          asked_lem
        ∙ ap (λ s. on_settled F C H able (on_settled F C H able s)) (deriving_lem e)

    -- No job is left.
    pub stuck_settled : on_settled F C H able stuck ≡ stuck
    unfolding on_settled
    stuck_settled = refl

    abbrev pub drawn_state : List SealedBytes → List (List (Option (List ℕ))) → State F C H
    drawn_state bs values = record (opening bs) {
      jobs = [];
      drawn = (h, alone (rewrite_rows F C H rows values), true) ∷ [];
    }

    pub drawn_lem :
        (bs : List SealedBytes) (values : List (List (Option (List ℕ))))
        → decrypt_rows F C (C.derive password salt) bs ≡ some values
        → on_settled F C H able (opening bs) ≡ drawn_state bs values
    unfolding on_settled
    drawn_lem bs values e = rw (e, opened)

    abbrev pub asked_again : List SealedBytes → State F C H
    asked_again bs = record (opening bs) {
      jobs = [];
      key = none;
      accept = some 1;
      handlers = handler 1 ∷ [];
      prompt = true;
      next_id = 2;
    }

    pub asked_again_lem :
        (bs : List SealedBytes)
        → decrypt_rows F C (C.derive password salt) bs ≡ none
        → on_settled F C H able (opening bs) ≡ asked_again bs
    unfolding on_settled
    asked_again_lem bs e = rw (e, opened)
