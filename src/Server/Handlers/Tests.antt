-- ===== src/Server/Handlers/Tests.antt =====
-- Numbers of a form, and a form that is checked.
use go_hauk.Prelude.{codes, text_eq, ◌≡◌, refl, true, false, [], ◌∷◌}
use go_hauk.Frontend.Number.{whole}
use go_hauk.Server.Store.{empty}
use go_hauk.Server.Linkgen.{link_4_plus_4_upper}
use go_hauk.Server.Db.{Db}
use go_hauk.Server.Handlers.{Env, Form, pos, negsuc, atoi}
use go_hauk.Server.Handlers.Post.{join_comma}

some_number : atoi (codes "-12") ≡ (negsuc 11, true)
unfolding atoi
some_number = refl

no_number : atoi (codes "1x") ≡ (pos 0, false)
unfolding atoi
no_number = refl

too_large : atoi (codes "9223372036854775808") ≡ (pos 9223372036854775807, false)
unfolding atoi
too_large = refl

joined : join_comma (codes "a" ∷ codes "b" ∷ []) ≡ codes "a,b"
unfolding join_comma
joined = refl

abbrev env : Env whole
env = record {
  public_url = codes "https://x.org/";
  max_duration = 86400;
  min_interval = 1;
  max_cached_pts = 2;
  link_style = link_4_plus_4_upper;
  allow_link_req = true;
  reserved_links = [];
  reserve_wl = false;
  authenticate = λ user password. text_eq password (codes "pw");
  parse_float = λ t. (5, true);
}

abbrev form : Form
form = (codes "dur", codes "60") ∷ (codes "int", codes "5") ∷ (codes "pwd", codes "pw") ∷ []

abbrev db : Db whole
db = record { memory = empty; random = [] }
