-- ===== src/Server/Session/Since.antt =====
-- What a session sends for a poll is what the client calls newer.
use mathlib.Core.List.{append-nil, append_assoc, map-append}
use go_hauk.Prelude.{
  Bool-cases, All, ◌≡◌, refl, sym, ap, inl, inr, false, Option, none, some, List, [], ◌∷◌, ◌++◌,
  map,
}
use go_hauk.Frontend.Number.{Float, le}
use go_hauk.Frontend.Trail.{Row, row_time}
use go_hauk.Frontend.Trail.Incremental.{newer}
use go_hauk.Server.Session.{
  Cell, null, num, str, Session, time_of, append_to, is_after, scan_points, get_points,
}

module _ (F : Float) where
  -- A cell as the client reads it from JSON, where it is a number or null.
  abbrev pub as_cell : Cell F → Option F.Num
  as_cell null = none
  as_cell (num x) = some x
  as_cell (str t) = none

  abbrev pub as_rows : List (List (Cell F)) → List (Row F)
  as_rows = map (map as_cell)

  -- A point as `handlePost` stores it when it is not encrypted: its third cell is a number.
  abbrev pub IsTimed : List (Cell F) → Type 0
  IsTimed (a ∷ b ∷ num t ∷ cs) = Unit
  IsTimed _ = ⊥

  -- A slice as the client reads it: nil becomes `null`.
  abbrev pub as_json : Option (List (List (Cell F))) → Option (List (Row F))
  as_json none = none
  as_json (some ps) = some (as_rows ps)

  -- What `append` of several rows makes of a slice: nil stays nil if there are none.
  abbrev pub extend : Option (List (Row F)) → List (Row F) → Option (List (Row F))
  extend none [] = none
  extend none (x ∷ xs) = some (x ∷ xs)
  extend (some ys) xs = some (ys ++ xs)

  extend-append_to :
      (pts : Option (List (List (Cell F)))) (p : List (Cell F)) (xs : List (Row F))
      → extend (as_json (append_to F pts p)) xs ≡ extend (as_json pts) (map as_cell p ∷ xs)
  extend-append_to none p xs = refl
  extend-append_to (some ps) p xs =
      rw (map-append (map as_cell) ps (p ∷ []), append_assoc (as_rows ps) (map as_cell p ∷ []) xs)

  is_after-IsTimed :
      (since : F.Num) (p : List (Cell F))
      → IsTimed p
      → is_after F since (time_of F p) ≡ F.lt since (row_time F (map as_cell p))
  is_after-IsTimed since (a ∷ b ∷ num t ∷ cs) h = refl
  is_after-IsTimed since [] h = absurd h
  is_after-IsTimed since (a ∷ []) h = absurd h
  is_after-IsTimed since (a ∷ b ∷ []) h = absurd h
  is_after-IsTimed since (a ∷ b ∷ null ∷ cs) h = absurd h
  is_after-IsTimed since (a ∷ b ∷ str t ∷ cs) h = absurd h

  scan_points-newer :
      (since : F.Num) (ps : List (List (Cell F))) (pts : Option (List (List (Cell F))))
      → All IsTimed ps
      → as_json (scan_points F since ps pts) ≡ extend (as_json pts) (newer F since (as_rows ps))
  unfolding scan_points newer
  scan_points-newer since [] none h = refl
  scan_points-newer since [] (some ps) h = ap some (sym (append-nil (as_rows ps)))
  scan_points-newer since (p ∷ ps) pts h =
      let e = is_after-IsTimed since p h.0 in
      elim (Bool-cases (F.lt since (row_time F (map as_cell p)))) [
        | inl new ↦
            rw (e, new, scan_points-newer since ps (append_to F pts p) h.1)
              (extend-append_to pts p (newer F since (as_rows ps)))
        | inr old ↦ rw (e, old, scan_points-newer since ps pts h.1)
      ]

  -- For a time after 0, a session in the clear, whose points all have a time, sends exactly the
  -- points that are newer, in their order, and nil, which the client reads as `null`, if there are
  -- none.
  pub get_points-newer :
      (since : F.Num) (s : Session F)
      → le F since (F.of_ℕ 0) ≡ false
      → s.encrypted ≡ false
      → All IsTimed s.points
      → as_json (get_points F since s) ≡ extend none (newer F since (as_rows s.points))
  unfolding get_points
  get_points-newer since s late clear h = rw (late, clear) (scan_points-newer since s.points none h)
