-- ===== src/Frontend/Prompt.antt =====
-- The head of `processUpdate` in frontend/main.js, which decides what is done with an answer, and the
-- prompt for the password of an encrypted share. A promise that is under way is a job, which the
-- browser settles at some later time.
pub mod Entered
pub mod Unlock
mod Tests
use go_hauk.Prelude.{
  ◌==◌, if◌then◌else◌, Text, ℕ, suc, Bool, true, false, not, ◌||◌, Option, none, some, List, [],
  ◌∷◌, ◌++◌, map,
}
use go_hauk.Frontend.Number.{Float}
use go_hauk.Frontend.Trail.{Row}
use go_hauk.Frontend.Update.{Points, alone}
use go_hauk.Frontend.Decrypt.{
  SealedRow, SealedBytes, Crypto, byte_array, read_rows, decrypt_rows, Cell, sealed, plain,
  rewrite_row,
}

-- What the browser offers: `window.crypto`, its `subtle`, a secure context, and the page the elements
-- of the prompt.
pub record Browser : Type 0 where
  pub crypto : Bool
  pub subtle : Bool
  pub secure : Bool
  pub elements : Bool

-- The bodies of the dialogs, as keys of `LANG`.
pub data Notice : Type 0 where
  unsupported unavailable_secure : Notice

module _ (F : Float) (C : Crypto F) (H : Type 0) where
  -- `data.points`: in the clear, or sealed with a salt, in which case `data.encrypted` is set.
  pub data Body : Type 0 where
    clear : Points F → Body
    locked : Text → List SealedRow → Body

  -- An answer of the server; `H` is the rest of it.
  pub record Answer : Type 0 where
    pub header : H
    pub body : Body

  pub data Job : Type 0 where
    derive_key : Text → List ℕ → Answer → Bool → Job
    open_points : C.Key → Answer → List SealedRow → List SealedBytes → Bool → Job

  -- A handler of the button "decrypt": which function object it is, and what it closes over.
  pub record Handler : Type 0 where
    pub handler_id : ℕ
    pub answer : Answer
    pub salt : Text
    pub init : Bool

  -- `aesKey`, `acceptKeyFunc`, the handlers of the button, whether the prompt is displayed, whether its
  -- label says that the password was wrong, the last dialog, the jobs under way, the answers that
  -- were drawn with their `init`, whether the timers were cleared, whether an exception has left
  -- `processUpdate` or a handler, and the next function object.
  pub record State : Type 0 where
    pub key : Option C.Key
    pub accept : Option ℕ
    pub handlers : List Handler
    pub prompt : Bool
    pub label_incorrect : Bool
    pub notice : Option Notice
    pub jobs : List Job
    pub drawn : List (H × Points F × Bool)
    pub cleared : Bool
    pub thrown : Bool
    pub next_id : ℕ

  abbrev ask : Browser → Answer → Text → Bool → State → State
  ask b a salt init s =
      if b.elements
      then record s {
        accept = some s.next_id;
        handlers =
            s.handlers
            ++ record { handler_id = s.next_id; answer = a; salt = salt; init = init } ∷ [];
        prompt = true;
        next_id = suc s.next_id;
      }
      else s

  -- `byteArray` is called for all cells before a promise can be settled: where it throws, no job is left.
  abbrev begin_opening :
      C.Key → Answer → List SealedRow → Bool → Option (List SealedBytes) → State → State
  begin_opening k a rows init none s = record s { thrown = true }
  begin_opening k a rows init (some bs) s = record s {
    jobs = s.jobs ++ open_points k a rows bs init ∷ [];
  }

  abbrev with_key : Browser → Answer → Text → List SealedRow → Bool → Option C.Key → State → State
  with_key b a salt rows init none s = ask b a salt init s
  with_key b a salt rows init (some k) s = begin_opening k a rows init (read_rows F C rows) s

  abbrev by_body : Browser → Answer → Bool → Body → State → State
  by_body b a init (clear ps) s = record s { drawn = s.drawn ++ (a.header, ps, init) ∷ [] }
  by_body b a init (locked salt rows) s =
      if not b.crypto
      then record s { notice = some unsupported }
      else if not b.subtle
      then (if b.secure
          then record s { notice = some unsupported }
          else record s { notice = some unavailable_secure })
      else with_key b a salt rows init s.key s

  -- `processUpdate(data, init)`; what follows for data in the clear is in Update.antt.
  unfoldable pub process_update : Browser → Answer → Bool → State → State
  process_update b a init s = by_body b a init a.body s

  -- `removeEventListener("click", acceptKeyFunc)`
  abbrev remove_handler : Option ℕ → List Handler → List Handler
  remove_handler none hs = hs
  remove_handler (some i) [] = []
  remove_handler (some i) (h ∷ hs) =
      if h.handler_id == i then hs else h ∷ remove_handler (some i) hs

  abbrev derive_from : Text → Handler → Option (List ℕ) → State → State
  derive_from password h none s = record s { thrown = true }
  derive_from password h (some salt) s = record s {
    jobs = s.jobs ++ derive_key password salt h.answer h.init ∷ [];
  }

  -- `acceptKeyFunc`, with the password that is in the input.
  unfoldable pub accept_key : Text → Handler → State → State
  accept_key password h s = derive_from password h (byte_array F C h.salt) (record s {
    handlers = remove_handler s.accept s.handlers;
    prompt = false;
    label_incorrect = true;
  })

  abbrev pub is_attached : ℕ → List Handler → Bool
  is_attached i [] = false
  is_attached i (h ∷ hs) = h.handler_id == i || is_attached i hs

  -- A handler that another one has removed since the click is not called.
  abbrev run_handlers : Text → List Handler → State → State
  run_handlers password [] s = s
  run_handlers password (h ∷ hs) s =
      run_handlers password hs
        (if is_attached h.handler_id s.handlers then accept_key password h s else s)

  -- A click on "decrypt" runs the handlers that are there.
  unfoldable pub on_decrypt : Text → State → State
  unfolding accept_key
  on_decrypt password s = run_handlers password s.handlers s

  -- A click on "cancel".
  unfoldable pub on_cancel : State → State
  on_cancel s = record s { prompt = false; handlers = remove_handler s.accept s.handlers }

  -- A cell as the rest of the script reads it; rewritten rows have no sealed cell left.
  abbrev pub cell_value : Cell F → Option F.Num
  cell_value (plain n) = n
  cell_value (sealed t) = none

  abbrev pub rewrite_rows : List SealedRow → List (List (Option (List ℕ))) → List (Row F)
  rewrite_rows (r ∷ rs) (v ∷ vs) = map cell_value (rewrite_row F C.parse r v) ∷ rewrite_rows rs vs
  rewrite_rows _ _ = []

  -- The `then` and the `catch` of the promise. An exception of the drawing, which the `catch` would see
  -- too, is left out here.
  abbrev opened :
      Browser
      → Answer
      → List SealedRow
      → Bool
      → Option (List (List (Option (List ℕ))))
      → State
      → State
  opened b a rows init none s =
      process_update b a true (record s { key = none; cleared = s.cleared || not init })
  opened b a rows init (some values) s =
      process_update b (record a { body = clear (alone (rewrite_rows rows values)) }) init s

  -- The browser settles a job.
  unfoldable pub settle : Browser → Job → State → State
  unfolding process_update
  settle b (derive_key password salt a init) s =
      process_update b a init (record s { key = some (C.derive password salt) })
  settle b (open_points k a rows bs init) s = opened b a rows init (decrypt_rows F C k bs) s

  abbrev settle_first : Browser → List Job → State → State
  settle_first b [] s = s
  settle_first b (j ∷ js) s = settle b j (record s { jobs = js })

  -- The oldest job is settled.
  unfoldable pub on_settled : Browser → State → State
  unfolding settle
  on_settled b s = settle_first b s.jobs s

  -- The script before any answer.
  abbrev pub locked_state : State
  locked_state = record {
    key = none;
    accept = none;
    handlers = [];
    prompt = false;
    label_incorrect = false;
    notice = none;
    jobs = [];
    drawn = [];
    cleared = false;
    thrown = false;
    next_id = 0;
  }
