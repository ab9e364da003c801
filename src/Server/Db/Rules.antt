-- ===== src/Server/Db/Rules.antt =====
-- The rules for the steps of a handler that write a session or take random bytes.
use go_hauk.Prelude.{
  if◌then◌else◌, length, Text, ℕ, ◌≡◌, refl, Bool, true, false, not, Option, none, some, List,
}
use go_hauk.Frontend.Number.{Float}
use go_hauk.Server.Action.{Action, done, ◌>>=◌, ◌>>◌, reply_if, or_reply, Ends, ends}
use go_hauk.Server.Action.Rules.{bind-Ends, met-Ends, refused-Ends, missing-Ends, given-Ends}
use go_hauk.Server.Session.{Session}
use go_hauk.Server.Linkgen.{LinkStyle, generate, read}
use go_hauk.Server.Db.{
  Response, Db, session_value, session_key, unix, db_put, db_exists, share_key, session_marshals,
  save_session, make_link, read_random, internal_error,
}

-- A session as it is stored.
abbrev pub put_session : (F : Float) → Session F → Db F → Db F
put_session F s db = db_put F (session_key s.id) (session_value s) (unix s.expire) db

abbrev pub with_random : (F : Float) → List ℕ → Db F → Db F
with_random F bs db = record db { random = bs }

-- The search for a free id in a state.
abbrev pub search_link : (F : Float) → ℕ → LinkStyle → Db F → Option (Text × List ℕ)
search_link F now style db =
    generate (λ id. some (db_exists F now (share_key id) db)) style (length db.random) db.random

module _ (F : Float) {B : Type 0} {E : Response → Db F → Type 0} {Q : B → Db F → Type 0} where
  pub save_session-Ends :
      (s : Session F) (f : Bool → Action (Db F) Response B) (db : Db F)
      → (session_marshals F s ≡ true → Ends E Q (f true (put_session F s db)))
      → (session_marshals F s ≡ false → Ends E Q (f false db))
      → Ends E Q ((save_session F s >>= f) db)
  unfolding save_session
  save_session-Ends s f db h k = bind-Ends _ _ _ (go (session_marshals F s) h k)
    where
      go :
          (b : Bool)
          → (b ≡ true → Ends E Q (f true (put_session F s db)))
          → (b ≡ false → Ends E Q (f false db))
          → Ends E
              (λ a t. Ends E Q (f a t))
              (if b then (done true, put_session F s db) else (done false, db))
      go true h k = ends true (put_session F s db) (h refl)
      go false h k = ends false db (k refl)

  pub make_link-Ends :
      (now : ℕ) (style : LinkStyle) (f : Option Text → Action (Db F) Response B) (db : Db F)
      → (search_link F now style db ≡ none → Ends E Q (f none db))
      → ((id : Text) (rest : List ℕ)
          → search_link F now style db ≡ some (id, rest)
          → Ends E Q (f (some id) (with_random F rest db)))
      → Ends E Q ((make_link F now style >>= f) db)
  unfolding make_link
  make_link-Ends now style f db h k = bind-Ends _ _ _ (go (search_link F now style db) h k)
    where
      go :
          (r : Option (Text × List ℕ))
          → (r ≡ none → Ends E Q (f none db))
          → ((id : Text) (rest : List ℕ)
              → r ≡ some (id, rest)
              → Ends E Q (f (some id) (with_random F rest db)))
          → Ends E
              (λ a t. Ends E Q (f a t))
              (elim r [
                | none ↦ (done none, db)
                | some (id, rest) ↦ (done (some id), with_random F rest db)
              ])
      go none h k = ends none db (h refl)
      go (some (id, rest)) h k = ends (some id) (with_random F rest db) (k id rest refl)

  pub read_random-Ends :
      (n : ℕ) (f : Option (List ℕ) → Action (Db F) Response B) (db : Db F)
      → (read n db.random ≡ none → Ends E Q (f none db))
      → ((bs rest : List ℕ)
          → read n db.random ≡ some (bs, rest)
          → Ends E Q (f (some bs) (with_random F rest db)))
      → Ends E Q ((read_random F n >>= f) db)
  unfolding read_random
  read_random-Ends n f db h k = bind-Ends _ _ _ (go (read n db.random) h k)
    where
      go :
          (r : Option (List ℕ × List ℕ))
          → (r ≡ none → Ends E Q (f none db))
          → ((bs rest : List ℕ)
              → r ≡ some (bs, rest)
              → Ends E Q (f (some bs) (with_random F rest db)))
          → Ends E
              (λ a t. Ends E Q (f a t))
              (elim r [
                | none ↦ (done none, db)
                | some (bs, rest) ↦ (done (some bs), with_random F rest db)
              ])
      go none h k = ends none db (h refl)
      go (some (bs, rest)) h k = ends (some bs) (with_random F rest db) (k bs rest refl)

  -- The session is saved, or the handler ends with an error.
  pub saved-Ends :
      (s : Session F) (k : Action (Db F) Response B) (db : Db F)
      → E internal_error db
      → (session_marshals F s ≡ true → Ends E Q (k (put_session F s db)))
      → Ends E Q ((save_session F s >>= λ saved. reply_if (not saved) internal_error >> k) db)
  saved-Ends s k db e h =
      save_session-Ends s _ db (λ m. met-Ends _ _ _ (h m)) (λ _. refused-Ends _ _ _ e)

  -- A link is made, or the handler ends with an error.
  pub made_link-Ends :
      (now : ℕ) (style : LinkStyle) (f : Text → Action (Db F) Response B) (db : Db F)
      → E internal_error db
      → ((id : Text) (rest : List ℕ)
          → search_link F now style db ≡ some (id, rest)
          → Ends E Q (f id (with_random F rest db)))
      → Ends E Q ((make_link F now style >>= λ made. or_reply made internal_error >>= f) db)
  made_link-Ends now style f db e h =
      make_link-Ends now style _ db (λ _. missing-Ends _ _ _ e)
        (λ id rest w. given-Ends _ _ _ _ (h id rest w))

  -- Whether the session is saved is not asked for.
  pub unasked-Ends :
      (s : Session F) (k : Action (Db F) Response B) (db : Db F)
      → (session_marshals F s ≡ true → Ends E Q (k (put_session F s db)))
      → (session_marshals F s ≡ false → Ends E Q (k db))
      → Ends E Q ((save_session F s >> k) db)
  unfolding ◌>>◌
  unasked-Ends s k db h e = save_session-Ends s (λ _. k) db h e

  -- Whether there were bytes is not asked for.
  pub any_random-Ends :
      (n : ℕ) (f : Option (List ℕ) → Action (Db F) Response B) (db : Db F)
      → ((o : Option (List ℕ)) (rest : List ℕ) → Ends E Q (f o (with_random F rest db)))
      → Ends E Q ((read_random F n >>= f) db)
  any_random-Ends n f db h =
      read_random-Ends n f db (λ _. h none db.random) (λ bs rest _. h (some bs) rest)
