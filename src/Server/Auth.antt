-- ===== src/Server/Auth.antt =====
-- auth/: the ways in which a user is authenticated (`PasswordAuth`, `HtpasswdAuth`, `LDAPAuth`), and the
-- choice of one by `NewServer` of api/server.go. Texts are code points.
pub mod Entries
pub mod Directory
pub mod Passes
mod Tests
use go_hauk.Prelude.{
  ◌==◌, if◌then◌else◌, length, Text, codes, text_eq, ℕ, ◌+◌, Bool, true, false, ◌&&◌, Option, none,
  some, List, [], ◌∷◌, ◌++◌,
}
use go_hauk.Server.Texts.{trim_space}

-- The errors: `ErrAuthFailed`, one of `os.Open`, the wrapped ones of the LDAP client by their prefix, and
-- the one for a filter that matches several users.
pub data AuthError : Type 0 where
  auth_failed : AuthError
  open_failed : AuthError
  wrapped : Text → AuthError
  ambiguous : ℕ → AuthError

-- `error`: `none` is nil.
abbrev pub Outcome : Type 0
Outcome = Option AuthError

-- What is not the repository's own: bcrypt's comparison of a hash with a password, the lines of a file,
-- as a `bufio.Scanner` gives them, and an LDAP client, whose connections are of type `C`. A search gives
-- the DNs of its entries.
pub record Libraries (C : Type 0) : Type 0 where
  pub compare : Text → Text → Bool
  pub read_lines : Text → Option (List Text)
  pub escape_filter : Text → Text
  pub dial : Text → Option C
  pub start_tls : C → Option C
  pub bind : Text → Text → C → Option C
  pub search : Text → Text → C → Option (List Text)

-- `LDAPAuth`
pub record LdapAuth : Type 0 where
  pub uri : Text
  pub base_dn : Text
  pub bind_dn : Text
  pub bind_pass : Text
  pub user_filter : Text
  pub use_tls : Bool

-- An `Authenticator`.
pub data Authenticator : Type 0 where
  password_auth : Text → Authenticator
  htpasswd_auth : Text → Authenticator
  ldap_auth : LdapAuth → Authenticator

-- `AuthMethod`, with the fields of `config.Config` that concern authentication.
pub data AuthMethod : Type 0 where
  by_password : AuthMethod
  by_htpasswd : AuthMethod
  by_ldap : AuthMethod

pub record AuthConfig : Type 0 where
  pub auth_method : AuthMethod
  pub password_hash : Text
  pub htpasswd_path : Text
  pub ldap : LdapAuth

abbrev pub choose : AuthMethod → AuthConfig → Authenticator
choose by_password cfg = password_auth cfg.password_hash
choose by_htpasswd cfg = htpasswd_auth cfg.htpasswd_path
choose by_ldap cfg = ldap_auth cfg.ldap

-- The choice of `NewServer`.
unfoldable pub new_auth : AuthConfig → Authenticator
new_auth cfg = choose cfg.auth_method cfg

-- `strings.SplitN(t, ":", 2)`, if it has two parts.
abbrev pub add_left : ℕ → Option (Text × Text) → Option (Text × Text)
add_left c none = none
add_left c (some (a, b)) = some (c ∷ a, b)

unfoldable pub split_colon : Text → Option (Text × Text)
split_colon [] = none
split_colon (c ∷ t) = let rest = split_colon t in if c == 58 then some ([], t) else add_left c rest

-- The user and the hash of a line of the file.
unfoldable pub entry_of : Text → Option (Text × Text)
unfolding split_colon
entry_of line = split_colon (trim_space line)

-- `strings.Replace(t, "%s", sub, 1)`
abbrev pub replace_here : Text → Text → ℕ → Text → Text
replace_here sub rest c [] = c ∷ rest
replace_here sub rest c (d ∷ t) = if (c == 37) && (d == 115) then sub ++ t else c ∷ rest

unfoldable pub replace_first : Text → Text → Text
replace_first sub [] = []
replace_first sub (c ∷ t) = replace_here sub (replace_first sub t) c t

-- "if err != nil { return ... }"
abbrev pub unless_error : {A : Type 0} → AuthError → Option A → (A → Outcome) → Outcome
unless_error e none k = some e
unless_error e (some a) k = k a

module _ {C : Type 0} (libs : Libraries C) where
  -- `CompareHashAndPassword`, and `ErrAuthFailed` if it has an error.
  abbrev pub check_hash : Text → Text → Outcome
  check_hash hash pass = if libs.compare hash pass then none else some auth_failed

  -- The loop of `HtpasswdAuth.Authenticate`: the outcome for a line, where that of the other lines is known.
  abbrev pub try_entry : Text → Text → Outcome → Option (Text × Text) → Outcome
  try_entry user pass rest none = rest
  try_entry user pass rest (some (name, hash)) =
      if text_eq name user then check_hash hash pass else rest

  unfoldable pub scan_entries : Text → Text → List Text → Outcome
  unfolding entry_of
  scan_entries user pass [] = some auth_failed
  scan_entries user pass (line ∷ lines) =
      try_entry user pass (scan_entries user pass lines) (entry_of line)

  -- The end of `LDAPAuth.Authenticate`: the entries that were found.
  abbrev pub bind_found : Text → C → List Text → Outcome
  bind_found pass conn [] = some auth_failed
  bind_found pass conn (dn ∷ []) = unless_error auth_failed (libs.bind dn pass conn) (λ _. none)
  bind_found pass conn (dn ∷ other ∷ dns) = some (ambiguous (length (dn ∷ other ∷ dns)))

  abbrev pub secure : Bool → C → (C → Outcome) → Outcome
  secure false conn k = k conn
  secure true conn k = unless_error (wrapped (codes "ldap starttls")) (libs.start_tls conn) k

  unfoldable pub find_user : LdapAuth → Text → Text → C → Outcome
  unfolding replace_first
  find_user l user pass conn =
      unless_error (wrapped (codes "ldap admin bind")) (libs.bind l.bind_dn l.bind_pass conn)
        (λ bound.
          unless_error (wrapped (codes "ldap search"))
            (libs.search l.base_dn (replace_first (libs.escape_filter user) l.user_filter) bound)
            (bind_found pass bound))

  abbrev pub with_password : LdapAuth → Text → Text → Outcome
  with_password l user [] = some auth_failed
  with_password l user (c ∷ pass) =
      unless_error (wrapped (codes "ldap connect")) (libs.dial l.uri)
        (λ conn. secure l.use_tls conn (find_user l user (c ∷ pass)))

  -- `HtpasswdAuth.Authenticate`
  abbrev pub with_file : Text → Text → Text → Outcome
  with_file path user pass =
      unless_error open_failed (libs.read_lines path) (scan_entries user pass)

  -- `Authenticate` of each.
  unfoldable pub authenticate : Authenticator → Text → Text → Outcome
  unfolding scan_entries find_user
  authenticate (password_auth hash) user pass = check_hash hash pass
  authenticate (htpasswd_auth path) user pass = with_file path user pass
  authenticate (ldap_auth l) user pass = with_password l user pass
