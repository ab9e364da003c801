-- ===== src/Server/Config/Closed.antt =====
-- Whom the server lets in for the environment that it was started in.
use go_hauk.Prelude.{
  true-false, Bool-cases, Text, codes, text_eq, text_eq_iff, ◌≡◌, refl, sym, ap, subst, ◌∙◌, ◌≢◌,
  ◌↔◌, ◌⊎◌, inl, inr, true, false, none, [], ◌∷◌,
}
use go_hauk.Server.Auth.{
  Libraries, AuthMethod, by_password, by_htpasswd, by_ldap, htpasswd_auth, new_auth, choose,
  authenticate,
}
use go_hauk.Server.Auth.Directory.{IsBound}
use go_hauk.Server.Auth.Passes.{Passes, authenticate-Passes}
use go_hauk.Server.Config.{Environment, env_str, auth_method_of, load_auth}

auth_method_password : auth_method_of (codes "password") ≡ by_password
unfolding auth_method_of text_eq
auth_method_password = refl

two_methods : codes "htpasswd" ≢ codes "ldap"
unfolding text_eq
two_methods e = true-false (sym ((text_eq_iff (codes "htpasswd") (codes "ldap")).1 e) ∙ other)
  where
    other : text_eq (codes "htpasswd") (codes "ldap") ≡ false
    other = refl

-- A method is one of the two that are named, or it is that of one password.
method-cases :
    (v : Text)
    → ((v ≡ codes "htpasswd") × (auth_method_of (env_str v (codes "password")) ≡ by_htpasswd))
      ⊎ ((v ≡ codes "ldap") × (auth_method_of (env_str v (codes "password")) ≡ by_ldap))
      ⊎ ((v ≢ codes "htpasswd")
          × (v ≢ codes "ldap")
          × (auth_method_of (env_str v (codes "password")) ≡ by_password))
unfolding env_str auth_method_of
method-cases [] = inr (inr ((λ e. cc), (λ e. cc), auth_method_password))
method-cases (c ∷ t) = elim (Bool-cases (text_eq (c ∷ t) (codes "htpasswd"))) [
  | inl h ↦ inl ((text_eq_iff (c ∷ t) (codes "htpasswd")).0 h, rw h refl)
  | inr other ↦ elim (Bool-cases (text_eq (c ∷ t) (codes "ldap"))) [
    | inl l ↦ inr (inl ((text_eq_iff (c ∷ t) (codes "ldap")).0 l, rw (other, l) refl))
    | inr one ↦ inr (
        inr (
          (λ e. true-false (sym ((text_eq_iff (c ∷ t) (codes "htpasswd")).1 e) ∙ other)),
          (λ e. true-false (sym ((text_eq_iff (c ∷ t) (codes "ldap")).1 e) ∙ one)),
          rw (other, one) refl,
        ))
  ]
]

env_str-empty : (v : Text) → env_str v [] ≡ v
unfolding env_str
env_str-empty [] = refl
env_str-empty (c ∷ t) = refl

module _ {C : Type 0} (libs : Libraries C) where
  -- What lets a user in.
  abbrev pub LetsIn : Environment → Text → Text → Type 0
  LetsIn env user pass =
      ((env (codes "HAUK_AUTH_METHOD") ≡ codes "htpasswd")
        × Passes libs
            (htpasswd_auth
              (env_str (env (codes "HAUK_HTPASSWD_PATH")) (codes "/etc/hauk/users.htpasswd")))
            user pass)
      ⊎ ((env (codes "HAUK_AUTH_METHOD") ≡ codes "ldap")
          × IsBound libs (load_auth env).ldap user pass)
      ⊎ ((env (codes "HAUK_AUTH_METHOD") ≢ codes "htpasswd")
          × (env (codes "HAUK_AUTH_METHOD") ≢ codes "ldap")
          × (env (codes "HAUK_PASSWORD_HASH") ≢ [])
          × (libs.compare (env (codes "HAUK_PASSWORD_HASH")) pass ≡ true))

  through :
      (env : Environment) (user pass : Text) (m : AuthMethod)
      → (load_auth env).auth_method ≡ m
      → (authenticate libs (new_auth (load_auth env)) user pass ≡ none)
        ↔ Passes libs (choose m (load_auth env)) user pass
  unfolding new_auth
  through env user pass m e =
      subst
        (λ k.
          (authenticate libs (new_auth (load_auth env)) user pass ≡ none)
          ↔ Passes libs (choose k (load_auth env)) user pass)
        e (authenticate-Passes libs (new_auth (load_auth env)) user pass)

  -- A server lets a user in exactly if: its method is `htpasswd`, and the user passes with the file that is
  -- named or the usual one; or it is `ldap`, and the directory knows the user; or it is anything else, there
  -- is a hash, and the password matches it. So nobody gets in where no hash is set and the method is missing
  -- or misspelled. bcrypt refuses the empty hash.
  pub load_auth-LetsIn :
      (env : Environment) (user pass : Text)
      → (libs.compare [] pass ≡ false)
      → (authenticate libs (new_auth (load_auth env)) user pass ≡ none) ↔ LetsIn env user pass
  unfolding load_auth
  load_auth-LetsIn env user pass refused = elim (method-cases (env (codes "HAUK_AUTH_METHOD"))) [
    | inl (v, m) ↦ (
      λ z. inl (v, (through env user pass by_htpasswd m).0 z),
      λ k. (through env user pass by_htpasswd m).1 (by_file v k),
    )
    | inr (inl (v, m)) ↦ (
      λ z. inr (inl (v, (through env user pass by_ldap m).0 z)),
      λ k. (through env user pass by_ldap m).1 (by_directory v k),
    )
    | inr (inr (v, w, m)) ↦ (
      λ z.
          let (h, c) = has_hash ((through env user pass by_password m).0 z) in
          inr (inr (v, w, h, c)),
      λ k. (through env user pass by_password m).1 (by_hash v w k),
    )
  ]
    where
      by_file :
          env (codes "HAUK_AUTH_METHOD") ≡ codes "htpasswd"
          → LetsIn env user pass
          → Passes libs (choose by_htpasswd (load_auth env)) user pass
      by_file v (inl (w, p)) = p
      by_file v (inr (inl (w, p))) = absurd (two_methods (sym v ∙ w))
      by_file v (inr (inr (w, x, h, c))) = absurd (w v)

      by_directory :
          env (codes "HAUK_AUTH_METHOD") ≡ codes "ldap"
          → LetsIn env user pass
          → Passes libs (choose by_ldap (load_auth env)) user pass
      by_directory v (inl (w, p)) = absurd (two_methods (sym w ∙ v))
      by_directory v (inr (inl (w, p))) = p
      by_directory v (inr (inr (w, x, h, c))) = absurd (x v)

      by_hash :
          env (codes "HAUK_AUTH_METHOD") ≢ codes "htpasswd"
          → env (codes "HAUK_AUTH_METHOD") ≢ codes "ldap"
          → LetsIn env user pass
          → Passes libs (choose by_password (load_auth env)) user pass
      by_hash v w (inl (e, p)) = absurd (v e)
      by_hash v w (inr (inl (e, p))) = absurd (w e)
      by_hash v w (inr (inr (e, x, h, c))) =
          ap (λ t. libs.compare t pass) (env_str-empty (env (codes "HAUK_PASSWORD_HASH"))) ∙ c

      has_hash :
          Passes libs (choose by_password (load_auth env)) user pass
          → (env (codes "HAUK_PASSWORD_HASH") ≢ [])
            × (libs.compare (env (codes "HAUK_PASSWORD_HASH")) pass ≡ true)
      has_hash p =
          let c =
            ap (λ t. libs.compare t pass) (sym (env_str-empty (env (codes "HAUK_PASSWORD_HASH"))))
            ∙ p in
          ((λ e. true-false (sym c ∙ ap (λ t. libs.compare t pass) e ∙ refused)), c)
