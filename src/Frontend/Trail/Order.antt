-- ===== src/Frontend/Trail/Order.antt =====
-- The trail is one line through points of growing time, and the map shows its end.
use mathlib.Core.List.{append-nil, append_assoc}
use mathlib.Core.Option.{some-injective}
use go_hauk.Prelude.{
  Bool-cases, Option-cases, last?, last?-append, Text, ℕ, ◌≡◌, refl, sym, subst, ◌∙◌, inl, inr,
  true, Option, none, some, List, [], ◌∷◌, ◌++◌,
}
use go_hauk.Frontend.Number.{Float}
use go_hauk.Frontend.Geometry.{Place}
use go_hauk.Frontend.Trail.{
  Line, Point, Circle, Face, Share, Row, State, column, row_place, new_point, place_circle, add_row,
  add_rows, receive, is_new, new_share,
}

module _ (F : Float) where
  abbrev pub line_id : Option (Line F) → List ℕ
  line_id none = []
  line_id (some l) = l.line_id ∷ []

  abbrev pub line_ids : List (Point F) → List ℕ
  line_ids [] = []
  line_ids (p ∷ ps) = line_id p.line ++ line_ids ps

  -- A line runs from one place to another.
  abbrev pub Runs : Option (Line F) → Place F → Place F → Type 0
  Runs none a b = ⊥
  Runs (some l) a b = (l.from ≡ a) × (l.to ≡ b)

  -- The later of two neighbours was recorded later, and its line comes from the earlier one.
  pub record Joined (p q : Point F) : Type 0 where
    pub later : F.lt p.time q.time ≡ true
    pub line : Runs q.line p.place q.place

  abbrev pub Connected : List (Point F) → Type 0
  Connected [] = Unit
  Connected (p ∷ []) = Unit
  Connected (p ∷ q ∷ ps) = Joined p q × Connected (q ∷ ps)

  abbrev pub end_place : Option (Point F) → Option (Place F)
  end_place none = none
  end_place (some p) = some p.place

  -- A circle stands round a marker.
  abbrev pub Round : Option (Circle F) → Option (Place F) → Type 0
  Round none m = Unit
  Round (some c) m = m ≡ some c.center

  -- Both are there or neither.
  abbrev pub Together : Option (Face F) → Option (Place F) → Type 0
  Together none none = Unit
  Together (some f) (some m) = Unit
  Together _ _ = ⊥

  -- Neighbours are joined, the marker is at the last point, the circle is round it, the icon's
  -- elements are there with it, and the lines on the map are those of the points.
  pub record IsTrail (s : Share F) : Type 0 where
    pub connected : Connected s.points
    pub marker : s.marker ≡ end_place (last? s.points)
    pub circle : Round s.circle s.marker
    pub face : Together s.face s.marker
    pub drawn : s.drawn ≡ line_ids s.points

  abbrev JoinedLast : Option (Point F) → Point F → Type 0
  JoinedLast none p = Unit
  JoinedLast (some q) p = Joined q p

  Connected-append :
      (ps : List (Point F)) (p : Point F)
      → Connected ps
      → JoinedLast (last? ps) p
      → Connected (ps ++ p ∷ [])
  Connected-append [] p c j = tt
  Connected-append (q ∷ []) p c j = (j, tt)
  Connected-append (q ∷ r ∷ ps) p c j = (c.0, Connected-append (r ∷ ps) p c.1 j)

  line_ids-append :
      (ps : List (Point F)) (p : Point F) → line_ids (ps ++ p ∷ []) ≡ line_ids ps ++ line_id p.line
  line_ids-append [] p = append-nil (line_id p.line)
  line_ids-append (q ∷ ps) p =
      rw (line_ids-append ps p) (sym (append_assoc (line_id q.line) (line_ids ps) (line_id p.line)))

  -- An entry and the `lastPoint` of the loop over it.
  pub record IsCurrent (sp : Share F × Option (Point F)) : Type 0 where
    pub trail : IsTrail sp.0
    pub last : sp.1 ≡ last? sp.0.points

  push_point :
      (s t : Share F) (p : Point F)
      → IsTrail s
      → t.points ≡ s.points ++ p ∷ []
      → JoinedLast (last? s.points) p
      → t.marker ≡ some p.place
      → Round t.circle t.marker
      → Together t.face t.marker
      → t.drawn ≡ s.drawn ++ line_id p.line
      → IsCurrent (t, some p)
  push_point s t p h e j m c f d = record {
    trail = record {
      connected = rw e (Connected-append s.points p h.connected j);
      marker = m ∙ rw (e, last?-append s.points p);
      circle = c;
      face = f;
      drawn = d ∙ rw (e, h.drawn, line_ids-append s.points p);
    };
    last = rw (e, last?-append s.points p);
  }

  JoinedLast-none : (o : Option (Point F)) (p : Point F) → end_place o ≡ none → JoinedLast o p
  JoinedLast-none none p e = tt
  JoinedLast-none (some q) p e = cc

  JoinedLast-some :
      (o : Option (Point F)) (m : Place F) (r : Row F) (i : ℕ)
      → end_place o ≡ some m
      → is_new F o r ≡ true
      → JoinedLast o (new_point F r (some (record { line_id = i; from = m; to = row_place F r })))
  JoinedLast-some none m r i e new = tt
  JoinedLast-some (some q) m r i e new = record {
    later = new;
    line = (sym (some-injective _ _ e), refl);
  }

  Round-place_circle :
      (at : Place F) (acc : Option F.Num) (s : State) (c : Option (Circle F))
      → Round (place_circle F at acc s c) (some at)
  Round-place_circle at none s none = tt
  Round-place_circle at (some acc) s none = refl
  Round-place_circle at none s (some c) = refl
  Round-place_circle at (some acc) s (some c) = refl

  Together_moved : (f : Option (Face F)) (m n : Place F) → Together f (some m) → Together f (some n)
  Together_moved none m n t = t
  Together_moved (some f) m n t = tt

  add_row-IsCurrent :
      (r : Row F) (s : Share F) (last : Option (Point F))
      → IsCurrent (s, last)
      → IsCurrent (add_row F r (s, last))
  unfolding add_row
  add_row-IsCurrent r s last h = elim (Bool-cases (is_new F last r)) [
    | inl new ↦ elim (Option-cases s.marker) [
      | inl e ↦
          rw (new, e, add_row)
            (push_point s _ _ h.trail refl
              (JoinedLast-none (last? s.points) _ (sym h.trail.marker ∙ e)) refl
              (Round-place_circle (row_place F r) (column F 4 r) _ s.circle) tt
              (sym (append-nil s.drawn)))
      | inr (m, e) ↦
          rw (new, e, add_row)
            (push_point s _ _ h.trail refl
              (JoinedLast-some (last? s.points) m r s.next_line (sym h.trail.marker ∙ e)
                (subst (λ o. is_new F o r ≡ true) h.last new))
              refl (Round-place_circle (row_place F r) (column F 4 r) _ s.circle)
              (Together_moved s.face m _ (subst (Together s.face) e h.trail.face)) refl)
    ]
    | inr old ↦
        rw (old, add_row)
          (record {
            trail = record {
              connected = h.trail.connected;
              marker = h.trail.marker;
              circle = h.trail.circle;
              face = h.trail.face;
              drawn = h.trail.drawn;
            };
            last = h.last;
          })
  ]

  add_rows-IsCurrent :
      (rs : List (Row F)) (sp : Share F × Option (Point F))
      → IsCurrent sp
      → IsCurrent (add_rows F rs sp)
  unfolding add_rows
  add_rows-IsCurrent [] sp h = h
  add_rows-IsCurrent (r ∷ rs) (s, last) h = add_rows-IsCurrent rs _ (add_row-IsCurrent r s last h)

  -- Whatever rows arrive for a trail, it stays one line through points of growing time that ends at
  -- the marker, with the circle round it and the lines on the map those of its points; and
  -- `lastPoint` is its last point.
  pub receive-IsCurrent : (rs : List (Row F)) (s : Share F) → IsTrail s → IsCurrent (receive F rs s)
  unfolding receive
  receive-IsCurrent rs s h = add_rows-IsCurrent rs _ (record { trail = h; last = refl })

  -- A new entry of `shares`.
  pub new_share-IsTrail : (id : Text) → IsTrail (new_share F id)
  new_share-IsTrail id = record {
    connected = tt;
    marker = refl;
    circle = tt;
    face = tt;
    drawn = refl;
  }
