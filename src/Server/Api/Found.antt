-- ===== src/Server/Api/Found.antt =====
-- Which PINs may lead to what a handler has found.
use go_hauk.Prelude.{
  true-false, ltb, lt→ltb, Text, ℕ, ◌≡◌, refl, sym, ap, subst, ◌∙◌, inl, inr, false, Option, none,
  some, arith,
}
use go_hauk.Frontend.Number.{Float}
use go_hauk.Frontend.Countdown.{show}
use go_hauk.Server.Store.{get, is_stored}
use go_hauk.Server.Store.Laws.{get-some}
use go_hauk.Server.Shares.{SoloShare, GroupShare, solo_share, group_share}
use go_hauk.Server.Db.{
  Db, Value, session_value, share_value, id_value, share_key, pin_key, db_exists, load_share,
  load_by_pin, group_of, db_get,
}
use go_hauk.Server.Db.Keys.{holds, load_share-id}
use go_hauk.Server.Api.Led.{entry, leads, PinsLead, OnlyPin, NoPin}

module _ (F : Float) where
  -- No PIN leads to an id that is free.
  pub free-NoPin :
      (now : ℕ) (x : Text) (db : Db F)
      → PinsLead F now db
      → db_exists F now (share_key x) db ≡ false
      → NoPin F now db x
  unfolding PinsLead is_stored get
  free-NoPin now x db k free p t w = elim (k p x t w) [
    | inl l ↦ l
    | inr (leads g h q) ↦ ground (arith)
  ]

  -- Nor to a share that is not of a group, and only its own PIN leads to a group.
  pub solo-NoPin :
      (now : ℕ) (x : Text) (s : SoloShare) (db : Db F)
      → PinsLead F now db
      → load_share F now x db ≡ some (solo_share s)
      → NoPin F now db x
  unfolding PinsLead load_share get
  solo-NoPin now x s db k e p t w = elim (k p x t w) [
    | inl l ↦ l
    | inr (leads g h q) ↦ ground (arith)
  ]

  load_share-pin :
      (now t : ℕ) (x : Text) (g h : GroupShare) (db : Db F)
      → load_share F now x db ≡ some (group_share g)
      → holds F (share_key x) db ≡ entry F (share_value (group_share h)) t
      → h.group_pin ≡ g.group_pin
  unfolding load_share get
  load_share-pin now t x g h db e w = ground (arith)

  pub group-OnlyPin :
      (now : ℕ) (x : Text) (g : GroupShare) (db : Db F)
      → PinsLead F now db
      → load_share F now x db ≡ some (group_share g)
      → OnlyPin F now db g.id (show g.group_pin)
  unfolding PinsLead
  group-OnlyPin now x g db k e p t w =
      elim (k p x t (w ∙ ap (λ z. entry F (id_value z) t) (load_share-id F now x g db e))) [
        | inl l ↦ inl l
        | inr (leads h u q) ↦ inr (ap show (sym (load_share-pin now t x g h db e u)) ∙ q)
      ]

  -- What a PIN that was found says.
  found_id :
      (now : ℕ) (q : Text) (g : GroupShare) (db : Db F)
      → load_by_pin F now q db ≡ some g
      → (x : Text) × (t : ℕ) × (holds F (pin_key q) db ≡ entry F (id_value x) t)
        × (ltb t now ≡ false)
        × (group_of F x (db_get F now (share_key x) db) ≡ some g)
  unfolding load_by_pin
  found_id now q g db e = go (db_get F now (pin_key q) db) refl e
    where
      go :
          (o : Option (Value F))
          → db_get F now (pin_key q) db ≡ o
          → (elim o [ some (id_value x) ↦ group_of F x (db_get F now (share_key x) db) | _ ↦ none ])
            ≡ some g
          → (x : Text) × (t : ℕ) × (holds F (pin_key q) db ≡ entry F (id_value x) t)
            × (ltb t now ≡ false)
            × (group_of F x (db_get F now (share_key x) db) ≡ some g)
      go (some (id_value x)) w e =
          let (t, stored, alive) = get-some now (pin_key q) db.memory (id_value x) w in
          (x, t, stored, alive, e)
      go none w e = absurd (ground (arith))
      go (some (session_value x)) w e = absurd (ground (arith))
      go (some (share_value x)) w e = absurd (ground (arith))

  group_of-id :
      (x : Text) (g : GroupShare) (o : Option (Value F)) → group_of F x o ≡ some g → g.id ≡ x
  group_of-id x g o e = ground (arith)

  group_of-pin :
      (now t : ℕ) (x : Text) (g h : GroupShare) (db : Db F)
      → group_of F x (db_get F now (share_key x) db) ≡ some g
      → holds F (share_key x) db ≡ entry F (share_value (group_share h)) t
      → h.group_pin ≡ g.group_pin
  unfolding get
  group_of-pin now t x g h db e w = ground (arith)

  group_of-load :
      (now t : ℕ) (x : Text) (g h : GroupShare) (db : Db F)
      → group_of F x (db_get F now (share_key x) db) ≡ some g
      → holds F (share_key x) db ≡ entry F (share_value (group_share h)) t
      → load_share F now x db ≡ some (group_share g)
  unfolding get load_share
  group_of-load now t x g h db e w = ground (arith)

  pub pinned-OnlyPin :
      (now : ℕ) (q : Text) (g : GroupShare) (db : Db F)
      → PinsLead F now db
      → load_by_pin F now q db ≡ some g
      → OnlyPin F now db g.id (show g.group_pin)
  unfolding PinsLead
  pinned-OnlyPin now q g db k e p t w =
      let (x, u, at, alive, found) = found_id now q g db e in
      elim (k p x t (w ∙ ap (λ z. entry F (id_value z) t) (group_of-id x g _ found))) [
        | inl l ↦ inl l
        | inr (leads h v r) ↦ inr (ap show (sym (group_of-pin now t x g h db found v)) ∙ r)
      ]

  -- A PIN gives a group that has it, and never a share of one user.
  pub load_by_pin-own :
      (now : ℕ) (q : Text) (g : GroupShare) (db : Db F)
      → PinsLead F now db
      → load_by_pin F now q db ≡ some g
      → (show g.group_pin ≡ q) × (load_share F now g.id db ≡ some (group_share g))
  unfolding PinsLead
  load_by_pin-own now q g db k e =
      let (x, t, at, alive, found) = found_id now q g db e in
      elim (k q x t at) [
        | inl l ↦ absurd (true-false (sym (lt→ltb t now l) ∙ alive))
        | inr (leads h v r) ↦ (
          ap show (sym (group_of-pin now t x g h db found v)) ∙ r,
          subst (λ z. load_share F now z db ≡ some (group_share g)) (sym (group_of-id x g _ found))
              (group_of-load now t x g h db found v),
        )
      ]
