-- ===== src/Server/Api/Tests.antt =====
-- Requests to a small server, and the theorems at them.
use go_hauk.Prelude.{
  Text, codes, text_eq, lookup, insert, ℕ, zero, suc, ◌≡◌, refl, ◌≢◌, ◌⊎◌, Bool, true, false,
  Option, none, some, List, [], ◌∷◌, arith,
}
use go_hauk.Frontend.Number.{whole}
use go_hauk.Frontend.Countdown.{show}
use go_hauk.Frontend.Link.{view_link}
use go_hauk.Server.Action.{
  Outcome, Ends, reply, ◌>>=◌, ◌>>◌, pure, gets, modify, reply_if, or_reply, of_outcome,
}
use go_hauk.Server.Store.{empty, get, put, delete, is_stored}
use go_hauk.Server.Session.{
  Session, num, null, add_point, add_target, set_expire, set_interval, set_encrypted, has_expired,
  get_points,
}
use go_hauk.Server.Shares.{GroupShare, solo_share, group_share, add_host, remove_host, group_pin_of}
use go_hauk.Server.Linkgen.{link_4_plus_4_upper, generate, make, read, hex_text}
use go_hauk.Server.Db.{
  Response, Db, session_key, internal_error, load_session, load_share, load_by_pin, save_session,
  save_solo, delete_solo, delete_session, save_group, session_marshals, make_link, read_random, say,
}
use go_hauk.Server.Db.Keys.{holds}
use go_hauk.Server.Handlers.{Env, Form, form_value, digits_value, scan_digits, atoi, itoa}
use go_hauk.Server.Handlers.Post.{handle_post, plain_point, make_point, join_comma}
use go_hauk.Server.Handlers.Stop.{handle_stop, has_target, stop_all, end_shares, end_share_of}
use go_hauk.Server.Handlers.Create.{
  handle_create, check_form, begin_session, choose_link, keep_session, begin_alone, begin_group,
}
use go_hauk.Server.Handlers.Adopt.{handle_adopt}
use go_hauk.Server.Handlers.NewLink.{handle_new_link}
use go_hauk.Server.Fetch.{solo_response, handle_fetch}
use go_hauk.Server.Api.{
  Request, create, post, adopt, new_link, serve, Serves, idle, serving, response,
}
use go_hauk.Server.Api.View.{fetch}
use go_hauk.Server.Api.Handled.{session_of}
use go_hauk.Server.Api.Isolation.{serve-isolated}
use go_hauk.Server.Api.Pins.{Serves-load_by_pin}
use go_hauk.Server.Api.Expiry.{InTime, Serves-fetch}
use go_hauk.Server.Api.Sharing.{NotPosted, Posted, handle_post-Posted}
use go_hauk.Server.Api.Begun.{Begun}
use go_hauk.Server.Api.Adopted.{Adopted, handle_adopt-Adopted}
use go_hauk.Server.Api.Stopped.{handle_stop-ended}

abbrev number : Option ℕ → ℕ × Bool
number none = (0, false)
number (some n) = (n, true)

abbrev env : Env whole
env = record {
  public_url = codes "https://x.org/";
  max_duration = 86400;
  min_interval = 1;
  max_cached_pts = 2;
  link_style = link_4_plus_4_upper;
  allow_link_req = true;
  reserved_links = [];
  reserve_wl = false;
  authenticate = λ user password. text_eq password (codes "pw");
  parse_float = λ t. number (digits_value t);
}

abbrev field : Text → Text → Form → Form
field key value f = (key, value) ∷ f

abbrev create_form : Text → Form
create_form mode = field (codes "dur") (codes "60") (
    field (codes "int") (codes "5") (
      field (codes "pwd") (codes "pw") (
        field (codes "mod") mode
          (field (codes "nic") (codes "ann") (field (codes "ado") (codes "1") [])))))

abbrev post_form : Text → Form
post_form sid = field (codes "sid") sid (
    field (codes "lat") (codes "1")
      (field (codes "lon") (codes "2") (field (codes "time") (codes "3") [])))

abbrev sid_form : Text → Form
sid_form sid = field (codes "sid") sid []

abbrev bytes : ℕ → List ℕ
bytes zero =
    1 ∷ 2 ∷ 3 ∷ 4 ∷ 5 ∷ 6 ∷ 7 ∷ 8 ∷ 9 ∷ 0 ∷ 0 ∷ 0 ∷ 0 ∷ 0 ∷ 0 ∷ 0 ∷ 8 ∷ 7 ∷ 6 ∷ 5 ∷ 4 ∷ 3 ∷ 2 ∷ 1
    ∷ []
bytes (suc n) = 17 ∷ bytes n

abbrev new_db : Db whole
new_db = record { memory = empty; random = bytes 32 }

-- Ten seconds after the start.
abbrev start : ℕ
start = 10000000000

-- The server, with all that it calls.
unfoldable served : ℕ → Request → Db whole → Outcome Response Response × Db whole
unfolding serve handle_create handle_post handle_stop handle_adopt ◌>>=◌ ◌>>◌ pure gets modify
    reply_if or_reply of_outcome check_form form_value lookup text_eq atoi itoa scan_digits
    read_random read begin_session set_expire set_interval set_encrypted hex_text begin_alone
    begin_group handle_new_link group_pin_of add_host make_link generate make keep_session
    save_session session_marshals choose_link save_solo save_group view_link add_target put insert
    get delete is_stored show load_session load_share load_by_pin make_point plain_point add_point
    has_expired join_comma stop_all end_shares end_share_of remove_host delete_solo delete_session
served now r db = serve whole env now r db

abbrev repeated : ℕ → ℕ → Text
repeated zero c = []
repeated (suc n) c = c ∷ repeated n c

-- The id of the first session.
abbrev sid : Text
sid = repeated 64 b'1'

abbrev link : Text
link = codes "2345-6789"

abbrev create_alone_request : Request
create_alone_request = create (some (create_form (codes "0")))

abbrev create_group_request : Request
create_group_request = create (some (create_form (codes "1")))

begin_answer : response whole env (served start create_alone_request new_db).0 ≡ record {
  status = 200;
  lines = codes "OK" ∷ sid ∷ codes "https://x.org/?2345-6789" ∷ link ∷ [];
}
unfolding served
begin_answer = refl

-- The state after the share was begun.
abbrev alone : Db whole
alone = (serve whole env start create_alone_request new_db).1

post_answer :
    response whole env (served start (post (some (post_form sid))) alone).0
    ≡ record { status = 200; lines = codes "OK" ∷ codes "https://x.org/?%s" ∷ link ∷ [] }
unfolding served
post_answer = refl

viewed :
    fetch whole env start link [] (served start (post (some (post_form sid))) alone).1
    ≡ solo_response (record {
      expire = 70;
      server_time = 10;
      interval = 5;
      points = (num 1 ∷ num 2 ∷ num 3 ∷ num 0 ∷ null ∷ null ∷ []) ∷ [];
      encrypted = false;
      salt = [];
    })
unfolding served fetch handle_fetch get_points
viewed = refl

-- Somebody who does not know the password.
refused :
    serve whole env start (create (some (post_form sid))) new_db
    ≡ (reply (say (codes "Missing data!")), new_db)
unfolding served
refused = refl

-- A group is begun, and its PIN leads to it until it ends.
abbrev team : Db whole
team = (serve whole env start create_group_request new_db).1

group_answer : response whole env (served start create_group_request new_db).0 ≡ record {
  status = 200;
  lines = codes "OK" ∷ sid ∷ codes "https://x.org/?2345-6789" ∷ codes "100009" ∷ link ∷ [];
}
unfolding served
group_answer = refl

abbrev group : GroupShare
group = record { id = link; expire = 70; hosts = (codes "ann", sid) ∷ []; group_pin = 100009 }

team_found : load_by_pin whole start (codes "100009") team ≡ some group
unfolding served
team_found = refl

team_Serves : Serves whole env start new_db start team
team_Serves = serving start create_group_request (idle start (omega arith)) (omega arith)

Serves-load_by_pin_example :
    (show group.group_pin ≡ codes "100009")
    × (load_share whole start group.id team ≡ some (group_share group))
Serves-load_by_pin_example =
    Serves-load_by_pin whole env start start start (bytes 32) team (codes "100009") group
      team_Serves (omega arith) team_found

other_session : sid ≢ codes "7"
other_session e = cc

serve-isolated_example :
    holds whole
      (session_key (codes "7"))
      (serve whole env start (post (some (post_form sid))) alone).1
    ≡ holds whole (session_key (codes "7")) alone
unfolding session_of form_value lookup text_eq
serve-isolated_example =
    serve-isolated whole env start (post (some (post_form sid))) (codes "7") alone other_session

Serves-fetch_example : InTime whole env start (fetch whole env start link [] team)
Serves-fetch_example = Serves-fetch whole env start start start (bytes 32) team link [] team_Serves

handle_post-Posted_example :
    Ends
      (NotPosted whole env start (post_form sid) alone)
      (Posted whole env start (post_form sid) alone)
      (handle_post whole env start (some (post_form sid)) alone)
handle_post-Posted_example = handle_post-Posted whole env start (post_form sid) alone

-- A second link of the same session, which its group adopts.
abbrev link_form : Form
link_form = field (codes "ado") (codes "1") (sid_form sid)

abbrev both : Db whole
both = (serve whole env start (new_link (some link_form)) team).1

abbrev adopt_form : Form
adopt_form =
    field (codes "nic") (codes "ben") (
      field (codes "aid") (codes "9876-5432") (field (codes "pin") (codes "100009") (sid_form sid)))

adopt_answer :
    response whole env (served start (adopt (some adopt_form)) both).0
    ≡ record { status = 200; lines = codes "OK" ∷ [] }
unfolding served
adopt_answer = refl

adopt_group :
    load_by_pin whole start (codes "100009") (served start (adopt (some adopt_form)) both).1
    ≡ some (record group { hosts = (codes "ann", sid) ∷ (codes "ben", sid) ∷ [] })
unfolding served
adopt_group = refl

handle_adopt-Adopted_example :
    Ends
      (λ x d. (d ≡ both) ⊎ (x ≡ internal_error))
      (λ r d. Adopted whole env start adopt_form both d)
      (handle_adopt whole env start (some adopt_form) both)
handle_adopt-Adopted_example = handle_adopt-Adopted whole env start adopt_form both

-- The session of the share that was begun.
abbrev walker : Session whole
walker = record {
  id = sid;
  expire = 70;
  interval = 5;
  targets = link ∷ [];
  points = [];
  encrypted = false;
  salt = [];
  max_pts = 2;
}

walker_found :
    load_session whole start env.max_cached_pts (form_value (codes "sid") (sid_form sid)) alone
    ≡ some walker
unfolding served
walker_found = refl

names_walker : form_value (codes "sid") (sid_form sid) ≢ []
unfolding form_value lookup text_eq
names_walker e = cc

all_links : form_value (codes "lid") (sid_form sid) ≡ []
unfolding form_value lookup text_eq
all_links = refl

handle_stop-ended_example :
    (load_session whole start env.max_cached_pts
        (form_value (codes "sid") (sid_form sid))
        (handle_stop whole env start (some (sid_form sid)) alone).1
      ≡ none)
    × (has_target link walker.targets ≡ true
        → load_share whole start link (handle_stop whole env start (some (sid_form sid)) alone).1
          ≢ some (solo_share (record { id = link; expire = 70; host = sid; adoptable = true })))
handle_stop-ended_example =
    handle_stop-ended whole env start start (sid_form sid) walker link
      (record { id = link; expire = 70; host = sid; adoptable = true }) alone all_links names_walker
      walker_found (omega arith)
