-- ===== src/Server/Api/Free.antt =====
-- The ids under which new shares are stored are free.
use go_hauk.Prelude.{
  if◌then◌else◌, length, Text, lookup, ℕ, zero, suc, ◌≡◌, refl, subst, Bool, true, false, not, ◌&&◌,
  Option, none, some, List, arith,
}
use go_hauk.Frontend.Number.{Float}
use go_hauk.Server.Linkgen.{generate, make, LinkStyle, Made, and_then, if_unused}
use go_hauk.Server.Db.{Db, share_key, db_exists}
use go_hauk.Server.Db.Rules.{search_link}
use go_hauk.Server.Handlers.{Env}
use go_hauk.Server.Handlers.Create.{Params, choose_link, try_custom_link, is_link_id, is_free_for}

-- An id that `Generate` gives is one for which the store says that there is none.
generate-free :
    (exists : Text → Option Bool) (style : LinkStyle) (fuel : ℕ) (bs rest : List ℕ) (id : Text)
    → generate exists style fuel bs ≡ some (id, rest)
    → exists id ≡ some false
unfolding generate
generate-free exists style zero bs rest id e = cc
generate-free exists style (suc fuel) bs rest id e =
    go (make style bs) (λ cs. generate-free exists style fuel cs rest id) e
  where
    go :
        (m : Made Text)
        → ((cs : List ℕ) → generate exists style fuel cs ≡ some (id, rest) → exists id ≡ some false)
        → and_then m (λ s cs. if_unused (exists s) (some (s, cs)) (generate exists style fuel cs))
          ≡ some (id, rest)
        → exists id ≡ some false
    go none later e = absurd (ground (arith))
    go (some (s, cs)) later e = decided (exists s) refl e
      where
        decided :
            (o : Option Bool)
            → exists s ≡ o
            → if_unused o (some (s, cs)) (generate exists style fuel cs) ≡ some (id, rest)
            → exists id ≡ some false
        decided none w e = absurd (ground (arith))
        decided (some true) w e = later cs e
        decided (some false) w e = subst (λ z. exists z ≡ some false) (ground (arith)) w

last-false : (a b c d : Bool) → a && (b && c && not d) ≡ true → d ≡ false
last-false a b c d e = ground (arith)

module _ (F : Float) (env : Env F) where
  -- A link that was made is free.
  pub search_link-free :
      (now : ℕ) (style : LinkStyle) (db : Db F) (id : Text) (rest : List ℕ)
      → search_link F now style db ≡ some (id, rest)
      → db_exists F now (share_key id) db ≡ false
  search_link-free now style db id rest e =
      let free = generate-free _ style (length db.random) db.random rest id e in cc

  -- The link that is chosen is free as well.
  pub choose_link-free :
      (now : ℕ) (p : Params F) (made : Text) (db : Db F)
      → db_exists F now (share_key made) db ≡ false
      → db_exists F now (share_key (choose_link F env now p made db)) db ≡ false
  unfolding choose_link try_custom_link
  choose_link-free now p made db e =
      go (is_link_id p.custom_link && try_custom_link F env now p.custom_link p.user db) refl
    where
      go :
          (b : Bool)
          → (is_link_id p.custom_link && try_custom_link F env now p.custom_link p.user db) ≡ b
          → db_exists F now (share_key (if b then p.custom_link else made)) db ≡ false
      go true w =
          last-false (is_link_id p.custom_link) env.allow_link_req
            (is_free_for F env p.user (lookup p.custom_link env.reserved_links))
            (db_exists F now (share_key p.custom_link) db) w
      go false w = e
