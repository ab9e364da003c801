-- ===== src/Frontend/Staleness/Marks.antt =====
-- What the loop over all users shows of each.
use go_hauk.Prelude.{
  if◌then◌else◌, Bool-cases, last?, Text, codes, ◌≡◌, refl, ap, ◌∙◌, inl, inr, Option, none, some,
  ◌++◌,
}
use go_hauk.Frontend.Number.{Float}
use go_hauk.Frontend.Staleness.{
  deaden, revive, StaleConfig, set_color, mark_dead, mark_alive, mark_share, is_stale, dead_color,
}
use go_hauk.Frontend.Trail.{State, live, rough, state_name, state_color, Point, Circle, Face, Share}

pub data Motion : Type 0 where
  still moving : Motion

-- What the class of the arrow says of the user.
pub data Status : Type 0 where
  provider : State → Status
  dead : Status

abbrev pub status_name : Status → Text
status_name (provider s) = state_name s
status_name dead = codes "dead"

abbrev pub motion_name : Motion → Text
motion_name still = codes "still-"
motion_name moving = codes "moving-"

abbrev pub arrow_class : Motion → Status → Text
arrow_class m s = codes "arrow " ++ (motion_name m ++ status_name s)

-- An arrow that was dead takes the state; one that was not keeps what it shows.
abbrev pub revived : State → Status → Status
revived s dead = provider s
revived s (provider t) = provider t

deaden-arrow_class : (m : Motion) (s : Status) → deaden (arrow_class m s) ≡ arrow_class m dead
unfolding deaden
deaden-arrow_class still (provider live) = refl
deaden-arrow_class still (provider rough) = refl
deaden-arrow_class still dead = refl
deaden-arrow_class moving (provider live) = refl
deaden-arrow_class moving (provider rough) = refl
deaden-arrow_class moving dead = refl

revive-arrow_class :
    (t : State) (m : Motion) (s : Status) → revive t (arrow_class m s) ≡ arrow_class m (revived t s)
unfolding revive
revive-arrow_class t still (provider live) = refl
revive-arrow_class t still (provider rough) = refl
revive-arrow_class live still dead = refl
revive-arrow_class rough still dead = refl
revive-arrow_class t moving (provider live) = refl
revive-arrow_class t moving (provider rough) = refl
revive-arrow_class live moving dead = refl
revive-arrow_class rough moving dead = refl

abbrev pub status_color : Status → Text
status_color (provider s) = state_color s
status_color dead = dead_color

module _ (F : Float) (cfg : StaleConfig F) (server_time : F.Num) where
  abbrev pub label_of : Option (Face F) → Option Text
  label_of none = none
  label_of (some f) = some f.label

  abbrev pub arrow_of : Option (Face F) → Option Text
  arrow_of none = none
  arrow_of (some f) = some f.arrow

  -- What a user whose last point is `p` is to be shown as.
  abbrev pub status_of : Point F → Share F → Status
  status_of p s = if is_stale F cfg server_time p then dead else provider s.state

  abbrev pub arrow_status : Point F → Share F → Status → Status
  arrow_status p s old = if is_stale F cfg server_time p then dead else revived s.state old

  -- The circle, if there is one, in a colour.
  abbrev pub Colored : Text → Option (Circle F) → Type 0
  Colored c none = Unit
  Colored c (some k) = k.color ≡ c

  -- The label and the circle show the status, the arrow shows how the user moves and is dead with the
  -- label, and the trail is as before.
  pub record IsMarked (m : Motion) (old : Status) (p : Point F) (s u : Share F) : Type 0 where
    pub label : label_of u.face ≡ some (status_name (status_of p s))
    pub arrow : arrow_of u.face ≡ some (arrow_class m (arrow_status p s old))
    pub circle : Colored (status_color (status_of p s)) u.circle
    pub points : u.points ≡ s.points
    pub marker : u.marker ≡ s.marker

  Colored-set_color : (c : Text) (k : Option (Circle F)) → Colored c (set_color F c k)
  Colored-set_color c none = tt
  Colored-set_color c (some k) = refl

  -- A user on the map is shown as dead exactly if the last point is older than the timeout, and else
  -- in the state of the last row; only an arrow that is not dead keeps the class that it has.
  pub mark_share-IsMarked :
      (s : Share F) (f : Face F) (p : Point F) (m : Motion) (old : Status)
      → s.face ≡ some f
      → last? s.points ≡ some p
      → f.arrow ≡ arrow_class m old
      → (u : Share F) × (mark_share F cfg server_time s ≡ some u) × IsMarked m old p s u
  unfolding mark_share
  mark_share-IsMarked s f p m old e l a = elim (Bool-cases (is_stale F cfg server_time p)) [
    | inl stale ↦ (
      mark_dead F cfg server_time p f s,
      rw (e, l, stale, mark_share),
      record {
        label = rw stale;
        arrow = rw stale (ap some (ap deaden a ∙ deaden-arrow_class m old));
        circle = rw stale (Colored-set_color dead_color s.circle);
        points = refl;
        marker = refl;
      },
    )
    | inr seen ↦ (
      mark_alive F f s,
      rw (e, l, seen, mark_share),
      record {
        label = rw seen;
        arrow = rw seen (ap some (ap (revive s.state) a ∙ revive-arrow_class s.state m old));
        circle = rw seen (Colored-set_color (state_color s.state) s.circle);
        points = refl;
        marker = refl;
      },
    )
  ]
