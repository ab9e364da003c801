-- ===== src/Server/Api/Led.antt =====
-- Where the PINs of groups lead, and what each write of the handlers does to that.
use go_hauk.Prelude.{
  true-false, if◌then◌else◌, Bool-cases, Text, text_eq, text_eq_iff, lookup, ℕ, ◌≤◌, ◌<◌, ◌≡◌, refl,
  sym, ap, subst, ◌∙◌, ◌⊎◌, inl, inr, false, Option, none, some, List, arith,
}
use go_hauk.Frontend.Number.{Float}
use go_hauk.Frontend.Countdown.{show}
use go_hauk.Server.Store.{Entry, empty}
use go_hauk.Server.Session.{Session}
use go_hauk.Server.Shares.{SoloShare, GroupShare, group_share}
use go_hauk.Server.Db.{
  Db, Value, session_value, share_value, id_value, session_key, share_key, pin_key, unix, save_solo,
  delete_solo, delete_session, save_group, delete_group,
}
use go_hauk.Server.Db.Keys.{
  holds, holds-db_put, holds-db_delete, save_solo-other, delete_solo-other, delete_session-other,
  share_key-save_group, share_key-delete_group,
}
use go_hauk.Server.Db.Rules.{put_session, with_random}

module _ (F : Float) where
  abbrev pub entry : Value F → ℕ → Option (Entry (Value F))
  entry v t = some (record { value = v; expire_at = t })

  entry-id :
      (a b : Text) (s t : ℕ) → entry (id_value a) s ≡ entry (id_value b) t → (a ≡ b) × (s ≡ t)
  entry-id a b s t e = (cc, cc)

  none-entry : (v : Value F) (t : ℕ) → ¬ (none ≡ entry v t)
  none-entry v t e = cc

  -- Under the id `x` there is a group with the PIN `p`, until the time `t`.
  pub data Leads (db : Db F) (p x : Text) (t : ℕ) : Type 0 where
    leads :
        (g : GroupShare)
        → holds F (share_key x) db ≡ entry (share_value (group_share g)) t
        → show g.group_pin ≡ p
        → Leads db p x t

  -- A PIN that is not gone leads to a group that has it, and both end at the same time.
  unfoldable pub PinsLead : ℕ → Db F → Type 0
  PinsLead now db =
      (p x : Text) (t : ℕ)
      → holds F (pin_key p) db ≡ entry (id_value x) t
      → (t < now) ⊎ Leads db p x t

  -- The PINs that lead to an id are gone, or are this one.
  abbrev pub OnlyPin : ℕ → Db F → Text → Text → Type 0
  OnlyPin now db x q =
      (p : Text) (t : ℕ) → holds F (pin_key p) db ≡ entry (id_value x) t → (t < now) ⊎ (q ≡ p)

  abbrev pub NoPin : ℕ → Db F → Text → Type 0
  NoPin now db x = (p : Text) (t : ℕ) → holds F (pin_key p) db ≡ entry (id_value x) t → t < now

  pub empty-PinsLead :
      (now : ℕ) (bs : List ℕ) → PinsLead now (record { memory = empty; random = bs })
  unfolding PinsLead lookup
  empty-PinsLead now bs p x t w = absurd (none-entry (id_value x) t w)

  pub later-PinsLead : (t u : ℕ) (db : Db F) → t ≤ u → PinsLead t db → PinsLead u db
  unfolding PinsLead
  later-PinsLead t u db h k p x e w = elim (k p x e w) [ inl l ↦ inl (omega arith) | inr l ↦ inr l ]

  -- A write of something that is no PIN, and of no share but the one under `y`.
  share-PinsLead :
      (now : ℕ) (y : Text) (d e : Db F)
      → ((p : Text) → holds F (pin_key p) e ≡ holds F (pin_key p) d)
      → ((x : Text) → text_eq y x ≡ false → holds F (share_key x) e ≡ holds F (share_key x) d)
      → NoPin now d y
      → PinsLead now d
      → PinsLead now e
  unfolding PinsLead
  share-PinsLead now y d e pins shares free k p x t w =
      let before = sym (pins p) ∙ w in
      elim (k p x t before) [
        | inl l ↦ inl l
        | inr (leads g h q) ↦ elim (Bool-cases (text_eq y x)) [
          | inl same ↦
              inl (
                free p t (before ∙ ap (λ z. entry (id_value z) t) (sym ((text_eq_iff y x).0 same))))
          | inr other ↦ inr (leads g (shares x other ∙ h) q)
        ]
      ]

  pub save_solo-PinsLead :
      (now : ℕ) (s : SoloShare) (db : Db F)
      → NoPin now db s.id
      → PinsLead now db
      → PinsLead now (save_solo F s db)
  unfolding text_eq
  save_solo-PinsLead now s db free k =
      share-PinsLead now s.id db _ (λ p. save_solo-other F s (pin_key p) db refl)
        (λ x n. save_solo-other F s (share_key x) db n) free k

  pub delete_solo-PinsLead :
      (now : ℕ) (id : Text) (db : Db F)
      → NoPin now db id
      → PinsLead now db
      → PinsLead now (delete_solo F id db)
  unfolding text_eq
  delete_solo-PinsLead now id db free k =
      share-PinsLead now id db _ (λ p. delete_solo-other F id (pin_key p) db refl)
        (λ x n. delete_solo-other F id (share_key x) db n) free k

  pub put_session-PinsLead :
      (now : ℕ) (s : Session F) (db : Db F) → PinsLead now db → PinsLead now (put_session F s db)
  unfolding PinsLead text_eq
  put_session-PinsLead now s db k p x t w = elim (k p x t (sym (at (pin_key p) refl) ∙ w)) [
    | inl l ↦ inl l
    | inr (leads g h q) ↦ inr (leads g (at (share_key x) refl ∙ h) q)
  ]
    where
      at :
          (j : Text)
          → text_eq (session_key s.id) j ≡ false
          → holds F j (put_session F s db) ≡ holds F j db
      at j n = rw (holds-db_put F (session_key s.id) j (session_value s) (unix s.expire) db, n) refl

  -- A write of the share under `y` and of the entry of the PIN `q`.
  group-PinsLead :
      (now : ℕ) (y q : Text) (d e : Db F) (share pin : Option (Entry (Value F)))
      → ((x : Text)
          → holds F (share_key x) e ≡ (if text_eq y x then share else holds F (share_key x) d))
      → ((p : Text) → holds F (pin_key p) e ≡ (if text_eq q p then pin else holds F (pin_key p) d))
      → ((x : Text) (t : ℕ) → pin ≡ entry (id_value x) t → Leads e q x t)
      → OnlyPin now d y q
      → PinsLead now d
      → PinsLead now e
  unfolding PinsLead
  group-PinsLead now y q d e share pin shares pins new only k p x t w =
      elim (Bool-cases (text_eq q p)) [
        | inl same ↦ inr (
            subst (λ z. Leads e z x t) ((text_eq_iff q p).0 same)
              (new x t
                (sym (pins p ∙ ap (λ b. if b then pin else holds F (pin_key p) d) same) ∙ w)))
        | inr other ↦
            let before =
              sym (pins p ∙ ap (λ b. if b then pin else holds F (pin_key p) d) other) ∙ w in
            elim (k p x t before) [
              | inl l ↦ inl l
              | inr (leads g h r) ↦ elim (Bool-cases (text_eq y x)) [
                | inl mine ↦
                    elim (only p t
                      (before ∙ ap (λ z. entry (id_value z) t) (sym ((text_eq_iff y x).0 mine)))) [
                        | inl l ↦ inl l
                        | inr u ↦ absurd (true-false (sym ((text_eq_iff q p).1 u) ∙ other))
                      ]
                | inr apart ↦ inr (leads g (shares x ∙ rw apart h) r)
              ]
            ]
      ]

  pub save_group-PinsLead :
      (now : ℕ) (g : GroupShare) (db : Db F)
      → OnlyPin now db g.id (show g.group_pin)
      → PinsLead now db
      → PinsLead now (save_group F g db)
  unfolding save_group text_eq
  save_group-PinsLead now g db =
      group-PinsLead now g.id (show g.group_pin) db _
        (entry (share_value (group_share g)) (unix g.expire))
        (entry (id_value g.id) (unix g.expire)) (λ x. share_key-save_group F g x db) pins
        (λ x t e.
          let same = entry-id g.id x (unix g.expire) t e in
          leads g
            (share_key-save_group F g x db
              ∙ rw ((text_eq_iff g.id x).1 same.0)
                  (ap (entry (share_value (group_share g))) same.1))
            refl)
    where
      pins :
          (p : Text)
          → holds F (pin_key p) (save_group F g db) ≡ (
              if text_eq (show g.group_pin) p
              then entry (id_value g.id) (unix g.expire)
              else holds F (pin_key p) db)
      pins p =
          rw
            (
              holds-db_put F (pin_key (show g.group_pin)) (pin_key p) (id_value g.id)
                  (unix g.expire) _,
              holds-db_put F (share_key g.id) (pin_key p) (share_value (group_share g))
                  (unix g.expire) db,
            )
            refl

  pub delete_group-PinsLead :
      (now : ℕ) (g : GroupShare) (db : Db F)
      → OnlyPin now db g.id (show g.group_pin)
      → PinsLead now db
      → PinsLead now (delete_group F g db)
  unfolding delete_group text_eq
  delete_group-PinsLead now g db =
      group-PinsLead now g.id (show g.group_pin) db _ none none
        (λ x. share_key-delete_group F g x db)
        (λ p.
          rw
            (
              holds-db_delete F (share_key g.id) (pin_key p) _,
              holds-db_delete F (pin_key (show g.group_pin)) (pin_key p) db,
            )
            refl)
        (λ x t e. absurd (none-entry (id_value x) t e))

  pub random-PinsLead :
      (now : ℕ) (bs : List ℕ) (db : Db F) → PinsLead now db → PinsLead now (with_random F bs db)
  unfolding PinsLead
  random-PinsLead now bs db k p x t w = elim (k p x t w) [
    | inl l ↦ inl l
    | inr (leads g h q) ↦ inr (leads g h q)
  ]

  pub delete_session-PinsLead :
      (now : ℕ) (id : Text) (db : Db F) → PinsLead now db → PinsLead now (delete_session F id db)
  unfolding PinsLead text_eq
  delete_session-PinsLead now id db k p x t w =
      elim (k p x t (sym (delete_session-other F id (pin_key p) db refl) ∙ w)) [
        | inl l ↦ inl l
        | inr (leads g h q) ↦ inr (leads g (delete_session-other F id (share_key x) db refl ∙ h) q)
      ]
