-- ===== src/Server/Auth/Passes.antt =====
-- Who is authenticated, for each of the ways.
use go_hauk.Prelude.{Text, ◌≡◌, ◌↔◌, true, none, some, List}
use go_hauk.Server.Auth.{
  Libraries, Authenticator, password_auth, htpasswd_auth, ldap_auth, authenticate,
}
use go_hauk.Server.Auth.Entries.{FirstEntry, check_hash_iff, scan_entries_iff}
use go_hauk.Server.Auth.Directory.{IsBound, unless_error_iff, with_password_iff}

module _ {C : Type 0} (libs : Libraries C) where
  abbrev pub Passes : Authenticator → Text → Text → Type 0
  Passes (password_auth hash) user pass = libs.compare hash pass ≡ true
  Passes (htpasswd_auth path) user pass =
      (lines : List Text) × (hash : Text) × (libs.read_lines path ≡ some lines)
      × FirstEntry user hash lines
      × (libs.compare hash pass ≡ true)
  Passes (ldap_auth l) user pass = IsBound libs l user pass

  -- A user is authenticated exactly in these cases. With one password for all: it matches the hash. With
  -- a file: the file can be read, and the password matches the hash of the first line that names the user.
  -- With a directory: the password is not empty, the connection is made and, if configured, secured, the
  -- server may bind, the filter with the escaped user finds exactly one entry, and the password binds it.
  pub authenticate-Passes :
      (a : Authenticator) (user pass : Text)
      → (authenticate libs a user pass ≡ none) ↔ Passes a user pass
  unfolding authenticate
  authenticate-Passes (password_auth hash) user pass = check_hash_iff libs hash pass
  authenticate-Passes (htpasswd_auth path) user pass = (
    λ z.
        let (lines, r, z2) = (unless_error_iff _ _ _).0 z in
        let (hash, f, c) = (scan_entries_iff libs user pass lines).0 z2 in (lines, hash, r, f, c),
    λ (lines, hash, r, f, c).
        (unless_error_iff _ _ _).1
          (lines, r, (scan_entries_iff libs user pass lines).1 (hash, f, c)),
  )
  authenticate-Passes (ldap_auth l) user pass = with_password_iff libs l user pass
