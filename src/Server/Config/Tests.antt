-- ===== src/Server/Config/Tests.antt =====
-- Environments with a few variables, and the theorem at one of them.
use go_hauk.Prelude.{
  if◌then◌else◌, Text, codes, text_eq, ◌≡◌, refl, ◌↔◌, true, false, none, some, [],
}
use go_hauk.Frontend.Number.{whole}
use go_hauk.Server.Linkgen.{link_4_plus_4_upper, link_32_mixed}
use go_hauk.Server.Handlers.{pos, negsuc, atoi, scan_digits}
use go_hauk.Server.Auth.{by_ldap, Libraries, new_auth, authenticate}
use go_hauk.Server.Config.{
  Environment, miles_per_hour, env_int, env_bool, env_float, auth_method_of, velocity_unit_of,
  link_style_of, load_auth, load,
}
use go_hauk.Server.Config.Closed.{LetsIn, load_auth-LetsIn}

abbrev libs : Libraries Text
libs = record {
  compare = text_eq;
  read_lines = λ path. none;
  escape_filter = λ t. t;
  dial = λ uri. none;
  start_tls = λ c. some c;
  bind = λ dn pass c. none;
  search = λ base filter c. none;
}

-- A hash and a method that is misspelled.
abbrev environment : Environment
environment key =
    if text_eq key (codes "HAUK_PASSWORD_HASH")
    then codes "pw"
    else if text_eq key (codes "HAUK_AUTH_METHOD")
    then codes "LDAP"
    else []

-- An int that is none is not read, a negative one is, and a style that is not known is the first.
some_values :
    (env_int (codes "12x") (pos 3) ≡ pos 3)
    × (env_int (codes "-1") (pos 3) ≡ negsuc 0)
    × (env_bool (codes "yes") true ≡ false)
    × (env_bool [] true ≡ true)
    × (velocity_unit_of (codes "mph") ≡ miles_per_hour)
    × (auth_method_of (codes "ldap") ≡ by_ldap)
    × (link_style_of (pos 11) ≡ link_32_mixed)
    × (link_style_of (pos 12) ≡ link_4_plus_4_upper)
unfolding env_int env_bool velocity_unit_of auth_method_of link_style_of atoi scan_digits text_eq
some_values = (refl, refl, refl, refl, refl, refl, refl, refl)

defaults :
    ((load whole (λ t. (0, false)) environment).max_duration ≡ pos 86400)
    × ((load whole (λ t. (0, false)) environment).min_interval ≡ 1)
    × ((load whole (λ t. (0, false)) environment).trust_proxy ≡ true)
unfolding load env_int env_float env_bool text_eq
defaults = (refl, refl, refl)

refused : libs.compare [] (codes "pw") ≡ false
unfolding text_eq
refused = refl

load_auth-LetsIn_example :
    (authenticate libs (new_auth (load_auth environment)) (codes "ann") (codes "pw") ≡ none)
    ↔ LetsIn libs environment (codes "ann") (codes "pw")
load_auth-LetsIn_example = load_auth-LetsIn libs environment (codes "ann") (codes "pw") refused
