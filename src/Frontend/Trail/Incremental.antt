-- ===== src/Frontend/Trail/Incremental.antt =====
-- Leaving out rows that are not newer than `since`, as the server does for an incremental fetch
-- (`GetPoints` of model/session.go), loses nothing of a trail that ends at `since` or later.
use go_hauk.Prelude.{
  if◌then◌else◌, Bool-cases, last?, ◌≡◌, refl, sym, ap, subst, ◌⊎◌, inl, inr, true, false, Option,
  none, some, List, [], ◌∷◌,
}
use go_hauk.Frontend.Number.{Float}
use go_hauk.Frontend.Trail.{
  State, Point, Share, Row, column, row_time, row_place, state_of, is_new, push, place_marker,
  add_row, add_rows, receive,
}

-- `<` of floating-point numbers is a strict order, NaN included.
pub record IsOrder (F : Float) : Type 0 where
  pub irrefl : (a : F.Num) → F.lt a a ≡ false
  pub trans : (a b c : F.Num) → F.lt a b ≡ true → F.lt b c ≡ true → F.lt a c ≡ true

-- What a number that is not NaN has besides: it stands between the sides of any inequation, or
-- beyond one of them.
abbrev pub IsComparable : (F : Float) → F.Num → Type 0
IsComparable F s = (a b : F.Num) → F.lt a b ≡ true → (F.lt a s ≡ true) ⊎ (F.lt s b ≡ true)

module _ (F : Float) where
  -- The rows that are newer than `since`.
  unfoldable pub newer : F.Num → List (Row F) → List (Row F)
  newer since [] = []
  newer since (r ∷ rs) = if F.lt since (row_time F r) then r ∷ newer since rs else newer since rs

  -- Two runs of the loop agree on all but the `state` of the last row.
  pub record Agree (a b : Share F × Option (Point F)) : Type 0 where
    pub same : record (a.0) { state = b.0.state } ≡ b.0
    pub last : a.1 ≡ b.1

  module _ (o : IsOrder F) (since : F.Num) (c : IsComparable F since) where
    -- The point is not older than `since`.
    abbrev Reached : Option (Point F) → Type 0
    Reached none = ⊥
    Reached (some p) = F.lt p.time since ≡ false

    asym : (a b : F.Num) → F.lt a b ≡ true → F.lt b a ≡ false
    asym a b h = elim (Bool-cases (F.lt b a)) [
      | inl back ↦ cc (o.trans a b a h back, o.irrefl a)
      | inr no_back ↦ no_back
    ]

    with_state : State → Share F → Share F
    with_state x s = record s { state = x }

    add_row-Agree :
        (r : Row F) (a b : Share F × Option (Point F)) → Agree a b → add_row F r a ≡ add_row F r b
    unfolding add_row with_state
    add_row-Agree r (s, last) (t, last') h =
        let e : with_state (state_of F (column F 3 r)) s
            ≡ with_state (state_of F (column F 3 r)) t =
          ap (with_state (state_of F (column F 3 r))) h.same in
        rw h.last (
          ap
            (λ (u : Share F).
              if is_new F last' r
              then push F r (place_marker F (row_place F r) u.marker u)
              else (u, last'))
            e)

    add_row-Reached :
        (r : Row F) (s : Share F) (last : Option (Point F))
        → F.lt since (row_time F r) ≡ true
        → Reached last
        → Reached (add_row F r (s, last)).1
    unfolding add_row
    add_row-Reached r s last new h = elim (Bool-cases (is_new F last r)) [
      | inl e ↦ rw (e, add_row) (asym since (row_time F r) new)
      | inr e ↦ rw (e, add_row) h
    ]

    is_new_old :
        (r : Row F) (last : Option (Point F))
        → F.lt since (row_time F r) ≡ false
        → Reached last
        → is_new F last r ≡ false
    is_new_old r none old h = absurd h
    is_new_old r (some p) old h = elim (Bool-cases (F.lt p.time (row_time F r))) [
      | inr e ↦ e
      | inl e ↦ elim (c p.time (row_time F r) e) [ inl before ↦ cc | inr behind ↦ cc ]
    ]

    skip_row :
        (r : Row F) (a : Share F × Option (Point F)) (t : Share F) (last : Option (Point F))
        → F.lt since (row_time F r) ≡ false
        → Reached last
        → Agree a (t, last)
        → Agree a (add_row F r (t, last))
    unfolding add_row with_state
    skip_row r (s, last') t last old reached h =
        rw (is_new_old r last old reached, add_row)
          (record { same = ap (with_state (state_of F (column F 3 r))) h.same; last = h.last })

    skip_row-Reached :
        (r : Row F) (t : Share F) (last : Option (Point F))
        → F.lt since (row_time F r) ≡ false
        → Reached last
        → Reached (add_row F r (t, last)).1
    unfolding add_row
    skip_row-Reached r t last old reached = rw (is_new_old r last old reached, add_row) reached

    add_rows-newer :
        (rs : List (Row F)) (a b : Share F × Option (Point F))
        → Agree a b
        → Reached b.1
        → Agree (add_rows F (newer since rs) a) (add_rows F rs b)
    unfolding add_rows newer
    add_rows-newer [] a b h reached = h
    add_rows-newer (r ∷ rs) a (t, last) h reached = elim (Bool-cases (F.lt since (row_time F r))) [
      | inl new ↦ rw new (
          subst (λ u. Agree (add_rows F (newer since rs) u) (add_rows F rs (add_row F r (t, last))))
            (sym (add_row-Agree r a (t, last) h))
            (add_rows-newer rs (add_row F r (t, last)) (add_row F r (t, last))
              (record { same = refl; last = refl }) (add_row-Reached r t last new reached)))
      | inr old ↦ rw old (
          add_rows-newer rs a (add_row F r (t, last)) (skip_row r a t last old reached h)
            (skip_row-Reached r t last old reached))
    ]

    -- If the trail of a user ends at `since` or later, the rows newer than `since` make the same of
    -- it as all rows: the same points, marker, circle and lines, and the same `lastPoint`. Only
    -- `state` may differ, which every row sets. The numbers are strictly ordered, and `since` is
    -- not NaN.
    pub receive-newer :
        (rs : List (Row F)) (s : Share F) (p : Point F)
        → last? s.points ≡ some p
        → F.lt p.time since ≡ false
        → Agree (receive F (newer since rs) s) (receive F rs s)
    unfolding receive
    receive-newer rs s p e h = add_rows-newer rs _ _ (record { same = refl; last = refl }) (rw e h)
