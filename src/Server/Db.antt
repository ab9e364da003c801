-- ===== src/Server/Db.antt =====
-- What the handlers of api/ keep, read and write: the store under the keys of model/, and the random
-- bytes to come. `now` is the time of a request in nanoseconds.
pub mod Keys
pub mod Rules
use go_hauk.Prelude.{
  if◌then◌else◌, length, Text, codes, ℕ, ◌+◌, ◌-◌, ◌*◌, ◌/◌, Bool, true, false, ◌&&◌, Option, none,
  some, List, [], ◌∷◌, ◌++◌,
}
use go_hauk.Frontend.Number.{Float, le}
use go_hauk.Frontend.Countdown.{show}
use go_hauk.Server.Action.{Action, done}
use go_hauk.Server.Store.{Memory, get, put, delete, is_stored}
use go_hauk.Server.Session.{Cell, null, num, str, Session}
use go_hauk.Server.Shares.{SoloShare, GroupShare, Stored, solo_share, group_share, as_group}
use go_hauk.Server.Linkgen.{LinkStyle, generate, read}

-- What a handler writes: the status, and the lines of the body.
pub record Response : Type 0 where
  pub status : ℕ
  pub lines : List Text

abbrev pub say : Text → Response
say line = record { status = 200; lines = line ∷ [] }

abbrev pub bad_request : Response
bad_request = record { status = 400; lines = codes "bad request" ∷ [] }

abbrev pub internal_error : Response
internal_error = record { status = 500; lines = codes "internal error" ∷ [] }

-- `PrefixSession`, `PrefixLocdata` and `PrefixGroupID` before an id.
abbrev pub session_key : Text → Text
session_key id = codes "session-" ++ id

abbrev pub share_key : Text → Text
share_key id = codes "locdata-" ++ id

abbrev pub pin_key : Text → Text
pin_key pin = codes "groupid-" ++ pin

abbrev pub nanoseconds : ℕ
nanoseconds = 1000000000

-- `time.Unix(t, 0)` in nanoseconds, and back.
abbrev pub unix : ℕ → ℕ
unix t = nanoseconds * t

abbrev pub to_unix : ℕ → ℕ
to_unix now = now / nanoseconds

module _ (F : Float) where
  -- What is stored: a session, a share or the id of a group. The id of a session and its limit, which
  -- are not stored with it, are set when it is loaded.
  pub data Value : Type 0 where
    session_value : Session F → Value
    share_value : Stored → Value
    id_value : Text → Value

  pub record Db : Type 0 where
    pub memory : Memory Value
    pub random : List ℕ

  -- Whether `json.Marshal` has a text for a number: not for NaN and the infinities.
  abbrev pub is_finite : F.Num → Bool
  is_finite x = le F x F.max_value && le F (F.sub (F.of_ℕ 0) F.max_value) x

  abbrev pub cell_marshals : Cell F → Bool
  cell_marshals null = true
  cell_marshals (num x) = is_finite x
  cell_marshals (str t) = true

  abbrev pub all_b {ℓ} : {A : Type ℓ} → (A → Bool) → List A → Bool
  all_b p [] = true
  all_b p (x ∷ xs) = p x && all_b p xs

  unfoldable pub session_marshals : Session F → Bool
  session_marshals s = is_finite s.interval && all_b (all_b cell_marshals) s.points

  -- `Exists`, `Get` and `Delete` on a key.
  abbrev pub db_exists : ℕ → Text → Db → Bool
  db_exists now key db = is_stored now key db.memory

  abbrev pub db_get : ℕ → Text → Db → Option Value
  db_get now key db = get now key db.memory

  abbrev pub db_put : Text → Value → ℕ → Db → Db
  db_put key v t db = record db { memory = put key v t db.memory }

  abbrev pub db_delete : Text → Db → Db
  db_delete key db = record db { memory = delete key db.memory }

  abbrev pub as_session : Text → ℕ → Option Value → Option (Session F)
  as_session id max_pts (some (session_value s)) = some (record s { id = id; max_pts = max_pts })
  as_session id max_pts _ = none

  -- `LoadSession`
  unfoldable pub load_session : ℕ → ℕ → Text → Db → Option (Session F)
  load_session now max_pts id db = as_session id max_pts (db_get now (session_key id) db)

  abbrev pub as_share : Text → Option Value → Option Stored
  as_share id (some (share_value (solo_share s))) = some (solo_share (record s { id = id }))
  as_share id (some (share_value (group_share g))) = some (group_share (record g { id = id }))
  as_share id _ = none

  -- `LoadShareType`, and `LoadSoloShare` or `LoadGroupShare` by the type.
  unfoldable pub load_share : ℕ → Text → Db → Option Stored
  load_share now id db = as_share id (db_get now (share_key id) db)

  abbrev pub group_of : Text → Option Value → Option GroupShare
  group_of id (some (share_value v)) = some (as_group id v)
  group_of id _ = none

  -- `LoadGroupShareByPin`, for `strconv.Itoa` of the PIN.
  unfoldable pub load_by_pin : ℕ → Text → Db → Option GroupShare
  load_by_pin now pin db = elim (db_get now (pin_key pin) db) [
    | some (id_value id) ↦ group_of id (db_get now (share_key id) db)
    | _ ↦ none
  ]

  -- `Session.Save`: whether it succeeds. `Expire` is the time of `time.Unix(s.data.Expire, 0)`.
  unfoldable pub save_session : Session F → Action Db Response Bool
  unfolding session_marshals
  save_session s db =
      if session_marshals s
      then (done true, db_put (session_key s.id) (session_value s) (unix s.expire) db)
      else (done false, db)

  -- `Session.Delete`
  unfoldable pub delete_session : Text → Db → Db
  delete_session id db = db_delete (session_key id) db

  -- `SoloShare.Save` and `SoloShare.Delete`
  unfoldable pub save_solo : SoloShare → Db → Db
  save_solo s db = db_put (share_key s.id) (share_value (solo_share s)) (unix s.expire) db

  unfoldable pub delete_solo : Text → Db → Db
  delete_solo id db = db_delete (share_key id) db

  -- `GroupShare.Save` and `GroupShare.Delete`
  unfoldable pub save_group : GroupShare → Db → Db
  save_group g db =
      db_put (pin_key (show g.group_pin)) (id_value g.id) (unix g.expire)
        (db_put (share_key g.id) (share_value (group_share g)) (unix g.expire) db)

  unfoldable pub delete_group : GroupShare → Db → Db
  delete_group g db = db_delete (share_key g.id) (db_delete (pin_key (show g.group_pin)) db)

  -- `s.linkgen.Generate`: as many attempts as there are bytes are enough.
  unfoldable pub make_link : ℕ → LinkStyle → Action Db Response (Option Text)
  make_link now style db =
      elim (generate (λ id. some (db_exists now (share_key id) db)) style (length db.random)
        db.random) [
          | none ↦ (done none, db)
          | some (id, rest) ↦ (done (some id), record db { random = rest })
        ]

  -- `rand.Read` of `n` bytes.
  unfoldable pub read_random : ℕ → Action Db Response (Option (List ℕ))
  read_random n db = elim (read n db.random) [
    | none ↦ (done none, db)
    | some (bs, rest) ↦ (done (some bs), record db { random = rest })
  ]
