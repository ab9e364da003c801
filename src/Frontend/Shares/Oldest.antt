-- ===== src/Frontend/Shares/Oldest.antt =====
-- An incremental fetch loses no point of any user.
use mathlib.Core.Option.{some-injective}
use go_hauk.Prelude.{
  if◌then◌else◌, Bool-cases, Option-cases, last?, Text, text_eq, Dict, lookup, ◌≡◌, refl, sym,
  subst, inl, inr, Bool, true, false, some, List, [], ◌∷◌,
}
use go_hauk.Frontend.Number.{Float}
use go_hauk.Frontend.Trail.{Point, Share, Row, receive}
use go_hauk.Frontend.Trail.Incremental.{IsOrder, IsComparable, newer, Agree, receive-newer}
use go_hauk.Frontend.Shares.{scan_oldest, oldest_point_time}

module _ (F : Float) (o : IsOrder F) where
  -- A time is not before another.
  abbrev NotBefore : F.Num → F.Num → Type 0
  NotBefore a b = F.lt a b ≡ false

  NotBefore-less : (a b c : F.Num) → F.lt c b ≡ true → NotBefore a b → NotBefore a c
  NotBefore-less a b c less h = elim (Bool-cases (F.lt a c)) [
    | inl before ↦ cc (o.trans a c b before less, h)
    | inr not_before ↦ not_before
  ]

  -- The scan only goes down.
  scan_oldest-NotBefore :
      (d : Dict (Share F)) (a oldest : F.Num) (found : Bool)
      → NotBefore a oldest
      → NotBefore a (scan_oldest F d (oldest, found)).0
  unfolding scan_oldest
  scan_oldest-NotBefore [] a oldest found h = h
  scan_oldest-NotBefore ((u, s) ∷ d) a oldest found h = elim (Option-cases (last? s.points)) [
    | inl e ↦ rw (e, scan_oldest) (scan_oldest-NotBefore d a oldest found h)
    | inr (p, e) ↦ elim (Bool-cases (F.lt p.time oldest)) [
      | inl less ↦
          rw (e, less, scan_oldest)
            (scan_oldest-NotBefore d a p.time true (NotBefore-less a oldest p.time less h))
      | inr more ↦ rw (e, more, scan_oldest) (scan_oldest-NotBefore d a oldest true h)
    ]
  ]

  scan_oldest-found :
      (d : Dict (Share F)) (oldest : F.Num) → (scan_oldest F d (oldest, true)).1 ≡ true
  unfolding scan_oldest
  scan_oldest-found [] oldest = refl
  scan_oldest-found ((u, s) ∷ d) oldest = elim (Option-cases (last? s.points)) [
    | inl e ↦ rw (e, scan_oldest) (scan_oldest-found d oldest)
    | inr (p, e) ↦ rw (e, scan_oldest) (scan_oldest-found d _)
  ]

  abbrev Covers : F.Num × Bool → Point F → Type 0
  Covers r p = NotBefore p.time r.0 × (r.1 ≡ true)

  older-Covers :
      (d : Dict (Share F)) (p : Point F) (oldest : F.Num)
      → Covers (scan_oldest F d (if F.lt p.time oldest then p.time else oldest, true)) p
  older-Covers d p oldest = elim (Bool-cases (F.lt p.time oldest)) [
    | inl less ↦
        rw less
          (scan_oldest-NotBefore d p.time p.time true (o.irrefl p.time), scan_oldest-found d p.time)
    | inr more ↦
        rw more (scan_oldest-NotBefore d p.time oldest true more, scan_oldest-found d oldest)
  ]

  scan_oldest-Covers :
      (d : Dict (Share F)) (name : Text) (s : Share F) (p : Point F) (acc : F.Num × Bool)
      → lookup name d ≡ some s
      → last? s.points ≡ some p
      → Covers (scan_oldest F d acc) p
  unfolding scan_oldest lookup
  scan_oldest-Covers [] name s p acc e l = cc
  scan_oldest-Covers ((u, t) ∷ d) name s p (oldest, found) e l =
      elim (Bool-cases (text_eq u name)) [
        | inl same ↦
            let it : t ≡ s = some-injective _ _ (rw same at e) in
            let end : last? t.points ≡ some p =
              subst (λ (x : Share F). last? x.points ≡ some p) (sym it) l in
            rw (end, scan_oldest) (older-Covers d p oldest)
        | inr other ↦ scan_oldest-Covers d name s p _ (rw other at e) l
      ]

  -- The time of an incremental fetch is not after the last point of any user.
  pub oldest_point_time-NotBefore :
      (shares : Dict (Share F)) (name : Text) (s : Share F) (p : Point F)
      → lookup name shares ≡ some s
      → last? s.points ≡ some p
      → F.lt p.time (oldest_point_time F shares) ≡ false
  unfolding oldest_point_time
  oldest_point_time-NotBefore shares name s p e l =
      let c = scan_oldest-Covers shares name s p (F.max_value, false) e l in rw c.1 c.0

  -- For every user who has points, the rows that are newer than the oldest last point of any user make
  -- the same of the trail as all rows, but for `state`. The numbers are strictly ordered, and the
  -- oldest time is not NaN.
  pub receive-oldest_point_time :
      (shares : Dict (Share F)) (name : Text) (s : Share F) (p : Point F) (rs : List (Row F))
      → IsComparable F (oldest_point_time F shares)
      → lookup name shares ≡ some s
      → last? s.points ≡ some p
      → Agree F (receive F (newer F (oldest_point_time F shares) rs) s) (receive F rs s)
  receive-oldest_point_time shares name s p rs c e l =
      receive-newer F o (oldest_point_time F shares) c rs s p l
        (oldest_point_time-NotBefore shares name s p e l)
