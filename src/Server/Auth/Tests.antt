-- ===== src/Server/Auth/Tests.antt =====
-- Files and directories with a few users.
use go_hauk.Prelude.{if◌then◌else◌, Text, codes, text_eq, ◌≡◌, refl, true, none, some, [], ◌∷◌}
use go_hauk.Server.Auth.{
  auth_failed, open_failed, ambiguous, Libraries, Authenticator, AuthMethod, by_htpasswd, by_ldap,
  AuthConfig, new_auth, htpasswd_auth, split_colon, entry_of, replace_first, scan_entries,
  find_user, authenticate,
}

-- A hash is the password itself, and a connection is the DN that it is bound to.
abbrev libs : Libraries Text
libs = record {
  compare = text_eq;
  read_lines = λ path.
      if text_eq path (codes "users")
      then some (codes "# users" ∷ codes " ann:a:1 " ∷ codes "ann:2" ∷ codes "bob:3" ∷ [])
      else none;
  escape_filter = λ t. t;
  dial = λ uri. some [];
  start_tls = λ c. some c;
  bind = λ dn pass c. if text_eq pass (codes "pw") then some dn else none;
  search = λ base filter c.
      if text_eq filter (codes "(uid=ann)")
      then some (codes "cn=ann" ∷ [])
      else some (codes "cn=b" ∷ codes "cn=c" ∷ []);
}

abbrev config : AuthMethod → AuthConfig
config m = record {
  auth_method = m;
  password_hash = codes "pw";
  htpasswd_path = codes "users";
  ldap = record {
    uri = [];
    base_dn = [];
    bind_dn = codes "cn=admin";
    bind_pass = codes "pw";
    user_filter = codes "(uid=%s)";
    use_tls = true;
  };
}

abbrev users : Authenticator
users = new_auth (config by_htpasswd)

abbrev directory : Authenticator
directory = new_auth (config by_ldap)

-- The first line of a user counts, without the spaces around it.
first_line :
    (authenticate libs users (codes "ann") (codes "a:1") ≡ none)
    × (authenticate libs users (codes "ann") (codes "2") ≡ some auth_failed)
    × (authenticate libs users (codes "eve") (codes "3") ≡ some auth_failed)
    × (authenticate libs (htpasswd_auth []) (codes "bob") (codes "3") ≡ some open_failed)
unfolding new_auth authenticate scan_entries entry_of split_colon text_eq
first_line = (refl, refl, refl, refl)

one_user :
    (authenticate libs directory (codes "ann") (codes "pw") ≡ none)
    × (authenticate libs directory (codes "ann") [] ≡ some auth_failed)
    × (authenticate libs directory (codes "*") (codes "pw") ≡ some (ambiguous 2))
unfolding new_auth authenticate find_user replace_first text_eq
one_user = (refl, refl, refl)
