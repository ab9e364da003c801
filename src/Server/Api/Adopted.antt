-- ===== src/Server/Api/Adopted.antt =====
-- When a share is adopted by a group.
use go_hauk.Prelude.{
  not-false, codes, text_eq_iff, ℕ, ◌≡◌, refl, sym, ◌⊎◌, inl, inr, true, false, Option, none, some,
  arith,
}
use go_hauk.Frontend.Number.{Float}
use go_hauk.Server.Session.{Session, add_target}
use go_hauk.Server.Shares.{SoloShare, GroupShare, Stored, solo_share, group_share}
use go_hauk.Server.Db.{Db, load_session, load_share, load_by_pin, save_group}
use go_hauk.Server.Db.Rules.{put_session}
use go_hauk.Server.Handlers.{Env}
use go_hauk.Server.Action.{done, Ends}
use go_hauk.Server.Action.Rules.{
  gets-Ends, modify-Ends, reply_if-Ends, or_reply-Ends, given-Ends, pure-Ends, of_outcome-Ends,
}
use go_hauk.Server.Shares.{add_host}
use go_hauk.Server.Db.{internal_error}
use go_hauk.Server.Db.Rules.{saved-Ends}
use go_hauk.Server.Handlers.{Form, form_value, atoi, itoa}
use go_hauk.Server.Handlers.Adopt.{handle_adopt, only_solo}

module _ (F : Float) (env : Env F) where
  -- The share is adoptable, in the clear and of the session that asks; the group that has the PIN now
  -- has the session under the nickname, and the session has the group as a target.
  abbrev pub Adopted : ℕ → Form → Db F → Db F → Type 0
  Adopted now f db d =
      (s : Session F) × (x : SoloShare) × (g : GroupShare) × (load_session F now env.max_cached_pts
          (form_value (codes "sid") f) db
        ≡ some s)
      × (load_share F now (form_value (codes "aid") f) db ≡ some (solo_share x))
      × (x.adoptable ≡ true)
      × (x.host ≡ form_value (codes "sid") f)
      × (s.encrypted ≡ false)
      × (load_by_pin F now (itoa (atoi (form_value (codes "pin") f)).0) db ≡ some g)
      × (d
          ≡ put_session F (add_target F g.id s)
              (save_group F (add_host (form_value (codes "nic") f) x.host g) db))

  only_solo-done :
      (o : Option Stored) (x : SoloShare) → only_solo o ≡ done x → o ≡ some (solo_share x)
  only_solo-done none x e = absurd (ground (arith))
  only_solo-done (some (group_share g)) x e = absurd (ground (arith))
  only_solo-done (some (solo_share s)) x e = ground (arith)

  -- A request to adopt a share changes nothing, or there is an internal error, or the share is adoptable
  -- and of the session that asks, which is not encrypted, and the store differs in this only: the group
  -- that was found by the PIN has the session under the nickname, and the session has the group as its
  -- last target.
  pub handle_adopt-Adopted :
      (now : ℕ) (f : Form) (db : Db F)
      → Ends
          (λ x d. (d ≡ db) ⊎ (x ≡ internal_error))
          (λ r d. Adopted now f db d)
          (handle_adopt F env now (some f) db)
  unfolding handle_adopt
  handle_adopt-Adopted now f db = given-Ends _ _ _ _ (
      reply_if-Ends _ _ _ _ (inl refl) λ _. gets-Ends _ _ _ (
        or_reply-Ends _ _ _ _ (inl refl) λ s loaded. gets-Ends _ _ _ (
          of_outcome-Ends _ _ _ (λ _ _. inl refl)
            λ x solo. reply_if-Ends _ _ _ _ (inl refl) λ adoptable.
              reply_if-Ends _ _ _ _ (inl refl) λ mine. reply_if-Ends _ _ _ _ (inl refl) λ clear.
                gets-Ends _ _ _ (
                  or_reply-Ends _ _ _ _ (inl refl) λ g pinned. modify-Ends _ _ _ (
                    saved-Ends F _ _ _ (inr refl) λ _. pure-Ends _ _ (
                      s,
                      x,
                      g,
                      loaded,
                      only_solo-done _ x solo,
                      not-false _ adoptable,
                      sym ((text_eq_iff (form_value (codes "sid") f) x.host).0 (not-false _ mine)),
                      clear,
                      pinned,
                      refl,
                    ))))))
