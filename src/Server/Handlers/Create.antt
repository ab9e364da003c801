-- ===== src/Server/Handlers/Create.antt =====
-- `handleCreate` of api/create.go: a phone begins to share, alone, with a new group, or in a group.
pub mod Checks
pub mod Rules
use go_hauk.Prelude.{
  ltb, leb, ◌==◌, if◌then◌else◌, Text, codes, text_eq, lookup, ℕ, suc, ◌+◌, ◌-◌, Bool, true, false,
  not, ◌&&◌, ◌||◌, Option, none, some, List, [], ◌∷◌,
}
use go_hauk.Frontend.Number.{Float, le}
use go_hauk.Frontend.Countdown.{show}
use go_hauk.Frontend.Link.{view_link}
use go_hauk.Server.Action.{
  Action, Outcome, done, reply, ◌>>=◌, ◌>>◌, pure, gets, modify, reply_if, or_reply, of_outcome,
}
use go_hauk.Server.Session.{
  Session, new_session, add_target, set_expire, set_interval, set_encrypted,
}
use go_hauk.Server.Shares.{SoloShare, GroupShare, new_solo, new_group, add_host}
use go_hauk.Server.Linkgen.{hex_text}
use go_hauk.Server.Db.{
  Response, Db, say, bad_request, internal_error, share_key, db_exists, to_unix, load_by_pin,
  save_session, save_solo, save_group, make_link, read_random,
}
use go_hauk.Server.Handlers.{Env, Form, form_value, is_empty, ℤ, pos, negsuc, atoi, itoa}

-- `shareModeCreateAlone`, `shareModeCreateGroup` and `shareModeJoinGroup`
pub data Mode : Type 0 where
  create_alone create_group join_group other_mode : Mode

abbrev pub mode_of : ℤ → Mode
mode_of (pos n) =
    if n == 0
    then create_alone
    else if n == 1
    then create_group
    else if n == 2
    then join_group
    else other_mode
mode_of (negsuc n) = other_mode

abbrev pub is_group : Mode → Bool
is_group create_alone = false
is_group create_group = true
is_group join_group = true
is_group other_mode = false

abbrev pub is_join : Mode → Bool
is_join create_alone = false
is_join create_group = false
is_join join_group = true
is_join other_mode = false

-- A number of seconds that is more than 0.
abbrev pub positive : ℤ × Bool → Option ℕ
positive (pos (suc n), true) = some (suc n)
positive _ = none

abbrev pub is_zero : ℤ → Bool
is_zero (pos n) = n == 0
is_zero (negsuc n) = false

-- A character of `[\w-]`, and `linkIDRe`.
abbrev pub is_link_id_char : ℕ → Bool
is_link_id_char c =
    (leb b'0' c && leb c b'9')
    || (leb b'A' c && leb c b'Z')
    || (leb b'a' c && leb c b'z')
    || c == b'_'
    || c == b'-'

abbrev pub all_link_id : Text → Bool
all_link_id [] = true
all_link_id (c ∷ t) = is_link_id_char c && all_link_id t

abbrev pub is_link_id : Text → Bool
is_link_id t = not (is_empty t) && all_link_id t

abbrev has_user : Text → List Text → Bool
has_user u [] = false
has_user u (v ∷ vs) = text_eq v u || has_user u vs

-- A form that was accepted.
pub record Params (F : Float) : Type 0 where
  pub duration : ℕ
  pub interval : F.Num
  pub mode : Mode
  pub adoptable : Bool
  pub encrypted : Bool
  pub salt : Text
  pub custom_link : Text
  pub nickname : Text
  pub pin : ℤ
  pub user : Text

module _ (F : Float) (env : Env F) where
  -- The checks of the handler before anything is made.
  unfoldable pub check_form : Form → Action (Db F) Response (Params F)
  check_form f = do
    reply_if (is_empty (form_value (codes "dur") f) || is_empty (form_value (codes "int") f))
        (say (codes "Missing data!"))
    let user = form_value (codes "usr") f
    reply_if (not (env.authenticate user (form_value (codes "pwd") f)))
        (say (codes "Incorrect password!"))
    d ← or_reply (positive (atoi (form_value (codes "dur") f))) (say (codes "Invalid duration!"))
    let i = env.parse_float (form_value (codes "int") f)
    reply_if (not i.1 || le F i.0 (F.of_ℕ 0)) (say (codes "Invalid interval!"))
    let mode = mode_of (atoi (form_value (codes "mod") f)).0
    let encrypted = text_eq (form_value (codes "e2e") f) (codes "1")
    let nickname = form_value (codes "nic") f
    let pin = (atoi (form_value (codes "pin") f)).0
    reply_if (ltb env.max_duration d) (say (codes "Share duration exceeds maximum configured!"))
    reply_if (F.lt (F.of_ℕ env.max_duration) i.0)
        (say (codes "Interval exceeds maximum configured!"))
    reply_if (F.lt i.0 env.min_interval) (say (codes "Interval is too short!"))
    reply_if (is_group mode && encrypted)
        (say (codes "End-to-end encryption is not supported for group shares."))
    reply_if (is_group mode && is_empty nickname) (say (codes "Missing data!"))
    reply_if (is_join mode && is_zero pin) (say (codes "Missing data!"))
    reply_if (encrypted && is_empty (form_value (codes "salt") f)) (say (codes "Missing data!"))
    pure (record {
      duration = d;
      interval = i.0;
      mode = mode;
      adoptable = text_eq (form_value (codes "ado") f) (codes "1");
      encrypted = encrypted;
      salt = form_value (codes "salt") f;
      custom_link = form_value (codes "lid") f;
      nickname = nickname;
      pin = pin;
      user = user;
    })

  -- Whether the reservation of a link, if there is one, lets the user have it.
  abbrev pub is_free_for : Text → Option (List Text) → Bool
  is_free_for user none = not env.reserve_wl
  is_free_for user (some users) = has_user user users

  -- `tryCustomLink`, whether it gives no error.
  unfoldable pub try_custom_link : ℕ → Text → Text → Db F → Bool
  try_custom_link now link user db =
      env.allow_link_req
      && is_free_for user (lookup link env.reserved_links)
      && not (db_exists F now (share_key link) db)

  -- The id of the share: the one that was asked for, where it may be had.
  unfoldable pub choose_link : ℕ → Params F → Text → Db F → Text
  unfolding try_custom_link
  choose_link now p made db =
      if is_link_id p.custom_link && try_custom_link now p.custom_link p.user db
      then p.custom_link
      else made

  abbrev sealed : Params F → Session F → Session F
  sealed p s = if p.encrypted then set_encrypted F true p.salt s else s

  -- The new session, with the id that was made.
  unfoldable pub begin_session : ℕ → Params F → Text → Session F
  unfolding set_expire set_interval set_encrypted
  begin_session expire p id =
      sealed p
        (set_interval F p.interval (set_expire F expire (new_session F id env.max_cached_pts)))

  -- `session.AddTarget` and `session.Save`.
  unfoldable pub keep_session : Text → Session F → Action (Db F) Response (Unit {0})
  keep_session id s = do
    saved ← save_session F (add_target F id s)
    reply_if (not saved) internal_error

  abbrev pub created : Session F → Text → List Text → Response
  created s id lines = record {
    status = 200;
    lines = codes "OK" ∷ s.id ∷ view_link env.public_url id ∷ lines;
  }

  unfoldable pub begin_alone : ℕ → ℕ → Params F → Session F → Action (Db F) Response Response
  begin_alone now expire p s = do
    made ← make_link F now env.link_style
    link ← or_reply made internal_error
    id ← gets (choose_link now p link)
    let share = record (new_solo id) { adoptable = p.adoptable; host = s.id; expire = expire }
    modify (save_solo F share)
    keep_session id s
    pure (created s id (id ∷ []))

  -- The bytes of the PIN; the error of `rand.Read` is ignored, and zeros are left.
  abbrev pub pin_bytes : Option (List ℕ) → List ℕ
  pin_bytes none = []
  pin_bytes (some bs) = bs

  unfoldable pub begin_group : ℕ → ℕ → Params F → Session F → Action (Db F) Response Response
  begin_group now expire p s = do
    made ← make_link F now env.link_style
    link ← or_reply made internal_error
    bs ← read_random F 8
    id ← gets (choose_link now p link)
    let share = add_host p.nickname s.id (record (new_group id (pin_bytes bs)) { expire = expire })
    modify (save_group F share)
    keep_session id s
    pure (created s id (show share.group_pin ∷ id ∷ []))

  unfoldable pub enter_group : ℕ → Params F → Session F → Action (Db F) Response Response
  enter_group now p s = do
    found ← gets (load_by_pin F now (itoa p.pin))
    share ← or_reply found (say (codes "Invalid group PIN!"))
    modify (save_group F (add_host p.nickname s.id share))
    keep_session share.id s
    pure (created s share.id (share.id ∷ []))

  abbrev pub by_mode : ℕ → ℕ → Params F → Session F → Mode → Action (Db F) Response Response
  by_mode now expire p s create_alone = begin_alone now expire p s
  by_mode now expire p s create_group = begin_group now expire p s
  by_mode now expire p s join_group = enter_group now p s
  by_mode now expire p s other_mode = pure (say (codes "Unsupported share mode!"))

  unfoldable pub handle_create : ℕ → Option Form → Action (Db F) Response Response
  handle_create now form = do
    f ← or_reply form bad_request
    p ← check_form f
    made ← read_random F 32
    bs ← or_reply made internal_error
    let expire = to_unix now + p.duration
    by_mode now expire p (begin_session expire p (hex_text bs)) p.mode
