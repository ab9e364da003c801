-- ===== src/Frontend/Update/Sound.antt =====
-- One user's rows leave a trail of bounded length.
use go_hauk.Prelude.{Text, ◌≤◌, ◌≡◌, refl, Bool, Option, none, some, List}
use go_hauk.Frontend.Number.{Float}
use go_hauk.Frontend.Geometry.{Place}
use go_hauk.Frontend.Trail.{State, Row, Point, Face, Share, receive}
use go_hauk.Frontend.Trail.Order.{IsTrail, IsCurrent, Together, receive-IsCurrent}
use go_hauk.Frontend.Trail.Pruned.{prune-IsTrail}
use go_hauk.Frontend.Speed.{SpeedConfig, show_speed, update_speed}
use go_hauk.Frontend.Trail.Sound.{IsSound}
use go_hauk.Frontend.Update.{
  Config, turn_arrow, name_face, last_two, list_share, turn_share, name_share, update_share,
}

module _ (F : Float) where
  list_share-IsTrail :
      (last : Option (Point F)) (s : Share F) → IsTrail F s → IsTrail F (list_share F last s)
  unfolding list_share
  list_share-IsTrail last s h = record {
    connected = h.connected;
    marker = h.marker;
    circle = h.circle;
    face = h.face;
    drawn = h.drawn;
  }

  with_face : Option (Face F) → Share F → Share F
  with_face f s = record s { face = f }

  with_face-IsTrail :
      (f : Option (Face F)) (s : Share F)
      → Together F f s.marker
      → IsTrail F s
      → IsTrail F (with_face f s)
  unfolding with_face
  with_face-IsTrail f s k h = record {
    connected = h.connected;
    marker = h.marker;
    circle = h.circle;
    face = k;
    drawn = h.drawn;
  }

  -- Both `f` and `g` are there, or neither.
  abbrev Alike : Option (Face F) → Option (Face F) → Type 0
  Alike none none = Unit
  Alike (some f) (some g) = Unit
  Alike _ _ = ⊥

  Alike-Together :
      (f g : Option (Face F)) (m : Option (Place F)) → Alike f g → Together F f m → Together F g m
  Alike-Together none none m a h = h
  Alike-Together none (some g) m a h = absurd a
  Alike-Together (some f) none m a h = absurd a
  Alike-Together (some f) (some g) none a h = h
  Alike-Together (some f) (some g) (some m) a h = tt

  name_face-Alike :
      (multi : Bool) (name : Text) (f : Option (Face F)) → Alike f (name_face F multi name f)
  name_face-Alike multi name none = tt
  name_face-Alike multi name (some f) = tt

  turn_arrow-Alike :
      (vel : F.Num) (s : State) (pq : Option (Point F × Point F)) (f : Option (Face F))
      → Alike f (turn_arrow F vel s pq f)
  turn_arrow-Alike vel s pq none = tt
  turn_arrow-Alike vel s none (some f) = tt
  turn_arrow-Alike vel s (some (p, q)) (some f) = tt

  alike_face :
      (f : Option (Face F)) (s : Share F) → Alike s.face f → IsTrail F s → IsTrail F (with_face f s)
  alike_face f s a h = with_face-IsTrail f s (Alike-Together s.face f s.marker a h.face) h

  name_share-IsTrail :
      (multi : Bool) (name : Text) (s : Share F)
      → IsTrail F s
      → IsTrail F (name_share F multi name s)
  unfolding name_share with_face
  name_share-IsTrail multi name s h = alike_face _ s (name_face-Alike multi name s.face) h

  turn_share-IsTrail : (vel : F.Num) (s : Share F) → IsTrail F s → IsTrail F (turn_share F vel s)
  unfolding turn_share with_face
  turn_share-IsTrail vel s h =
      alike_face _ s (turn_arrow-Alike vel s.state (last_two F s.points) s.face) h

  show_speed-IsTrail :
      (cfg : SpeedConfig F) (f : Option (Face F)) (last : Option (Point F)) (s : Share F)
      → s.face ≡ f
      → IsTrail F s
      → IsTrail F (show_speed F cfg f last s).0
  unfolding with_face
  show_speed-IsTrail cfg none last s e h = h
  show_speed-IsTrail cfg (some f) last s e h = alike_face (some _) s (rw e tt) h

  update_speed-IsTrail :
      (cfg : SpeedConfig F) (s : Share F) (last : Option (Point F))
      → IsTrail F s
      → IsTrail F (update_speed F cfg (s, last)).0
  unfolding update_speed
  update_speed-IsTrail cfg s last h = show_speed-IsTrail cfg s.face last s refl h

  pub update_share-IsSound :
      (cfg : Config F) (multi : Bool) (name : Text) (rows : List (Row F)) (s : Share F)
      → 1 ≤ cfg.max_points
      → IsTrail F s
      → IsSound F cfg.max_points (update_share F cfg multi name rows s).0
  unfolding update_share
  update_share-IsSound cfg multi name rows s pos h =
      let r = receive F rows s in
      let c : IsCurrent F r = receive-IsCurrent F rows s h in
      let l = list_share-IsTrail r.1 r.0 c.trail in
      let v = update_speed F cfg.speed (list_share F r.1 r.0, r.1) in
      let t =
        turn_share-IsTrail v.1 v.0 (update_speed-IsTrail cfg.speed (list_share F r.1 r.0) r.1 l) in
      let p = prune-IsTrail F cfg.max_points (turn_share F v.1 v.0) pos t in
      record { trail = name_share-IsTrail multi name _ p.0; short = unfold name_share in p.1 }
