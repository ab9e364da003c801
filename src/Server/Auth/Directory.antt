-- ===== src/Server/Auth/Directory.antt =====
-- The steps with a directory, and whom it knows.
use go_hauk.Prelude.{
  Text, ◌≡◌, refl, sym, ap, ◌∙◌, ◌≢◌, ◌↔◌, Bool, true, false, Option, none, some, List, [], ◌∷◌,
  arith,
}
use mathlib.Core.Option.{some-injective}
use go_hauk.Server.Auth.{
  AuthError, auth_failed, Outcome, Libraries, LdapAuth, replace_first, unless_error, bind_found,
  secure, find_user, with_password,
}

-- A step that may fail leads to no error exactly if it succeeds and what follows has no error.
pub unless_error_iff :
    {A : Type 0} (e : AuthError) (o : Option A) (k : A → Outcome)
    → (unless_error e o k ≡ none) ↔ ((a : A) × (o ≡ some a) × (k a ≡ none))
unless_error_iff e none k = (λ z. absurd (ground (arith)), λ (a, q, z). absurd (ground (arith)))
unless_error_iff e (some a) k = (λ z. (a, refl, z), λ (b, q, z). ap k (some-injective _ _ q) ∙ z)

module _ {C : Type 0} (libs : Libraries C) where
  -- The connection after the optional StartTLS.
  abbrev pub IsSecured : Bool → C → C → Type 0
  IsSecured false conn d = d ≡ conn
  IsSecured true conn d = libs.start_tls conn ≡ some d

  -- A user whom the directory knows.
  pub record IsBound (l : LdapAuth) (user pass : Text) : Type 0 where
    pub conn : C
    pub secured : C
    pub bound : C
    pub dn : Text
    pub end : C
    pub pass_ne : pass ≢ []
    pub dial_eq : libs.dial l.uri ≡ some conn
    pub secured_eq : IsSecured l.use_tls conn secured
    pub bind_eq : libs.bind l.bind_dn l.bind_pass secured ≡ some bound
    pub search_eq :
        libs.search l.base_dn (replace_first (libs.escape_filter user) l.user_filter) bound
        ≡ some (dn ∷ [])
    pub end_eq : libs.bind dn pass bound ≡ some end

  bind_found_iff :
      (pass : Text) (conn : C) (dns : List Text)
      → (bind_found libs pass conn dns ≡ none)
        ↔ ((dn : Text) × (end : C) × (dns ≡ dn ∷ []) × (libs.bind dn pass conn ≡ some end))
  bind_found_iff pass conn [] = (λ z. absurd (ground (arith)), λ (dn, c, e, q). absurd cc)
  bind_found_iff pass conn (dn ∷ []) = (
    λ z.
        let (c, q, w) = (unless_error_iff auth_failed (libs.bind dn pass conn) (λ _. none)).0 z in
        (dn, c, refl, q),
    λ (d, c, e, q).
        let same : dn ≡ d = cc in
        (unless_error_iff auth_failed (libs.bind dn pass conn) (λ _. none)).1
          (c, ap (λ x. libs.bind x pass conn) same ∙ q, refl),
  )
  bind_found_iff pass conn (dn ∷ other ∷ dns) =
      (λ z. absurd (ground (arith)), λ (d, c, e, q). absurd cc)

  find_user_iff :
      (l : LdapAuth) (user pass : Text) (conn : C)
      → (find_user libs l user pass conn ≡ none) ↔ (
          (bound : C) × (dn : Text) × (end : C) × (libs.bind l.bind_dn l.bind_pass conn
            ≡ some bound)
          × (libs.search l.base_dn (replace_first (libs.escape_filter user) l.user_filter) bound
              ≡ some (dn ∷ []))
          × (libs.bind dn pass bound ≡ some end))
  unfolding find_user
  find_user_iff l user pass conn = (
    λ z.
        let (bound, b, z2) = (unless_error_iff _ _ _).0 z in
        let (dns, s, z3) = (unless_error_iff _ _ _).0 z2 in
        let (dn, c, one, e) = (bind_found_iff pass bound dns).0 z3 in
        (bound, dn, c, b, s ∙ ap some one, e),
    λ (bound, dn, c, b, s, e). (unless_error_iff _ _ _).1 (
      bound,
      b,
      (unless_error_iff _ _ _).1 (_, s, (bind_found_iff pass bound (dn ∷ [])).1 (dn, c, refl, e)),
    ),
  )

  secure_iff :
      (b : Bool) (conn : C) (k : C → Outcome)
      → (secure libs b conn k ≡ none) ↔ ((d : C) × IsSecured b conn d × (k d ≡ none))
  secure_iff false conn k = (λ z. (conn, refl, z), λ (d, e, z). ap k (sym e) ∙ z)
  secure_iff true conn k = unless_error_iff _ _ k

  pub with_password_iff :
      (l : LdapAuth) (user pass : Text)
      → (with_password libs l user pass ≡ none) ↔ IsBound l user pass
  with_password_iff l user [] = (λ z. absurd (ground (arith)), λ b. absurd (b.pass_ne refl))
  with_password_iff l user (c ∷ pass) = (
    λ z.
        let (conn, d, z2) = (unless_error_iff _ _ _).0 z in
        let (secured, s, z3) = (secure_iff l.use_tls conn _).0 z2 in
        let (bound, dn, last, b, q, e) = (find_user_iff l user (c ∷ pass) secured).0 z3 in
        record {
          conn = conn;
          secured = secured;
          bound = bound;
          dn = dn;
          end = last;
          pass_ne = λ p. cc;
          dial_eq = d;
          secured_eq = s;
          bind_eq = b;
          search_eq = q;
          end_eq = e;
        },
    λ h. (unless_error_iff _ _ _).1 (
      h.conn,
      h.dial_eq,
      (secure_iff l.use_tls h.conn _).1 (
        h.secured,
        h.secured_eq,
        (find_user_iff l user (c ∷ pass) h.secured).1
            (h.bound, h.dn, h.end, h.bind_eq, h.search_eq, h.end_eq),
      ),
    ),
  )
