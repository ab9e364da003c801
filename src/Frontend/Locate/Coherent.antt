-- ===== src/Frontend/Locate/Coherent.antt =====
-- The button, the watcher and the drawn layers agree in every reachable state.
use go_hauk.Prelude.{ℕ, ◌≡◌, refl, ◌↔◌, true, Option, none, some, List, [], ◌∷◌, arith}
use go_hauk.Frontend.Locate.{
  Icon, inactive, pending, active, Drawn, Control, on_position, on_click, on_mousedown, fresh, Step,
  click, position, mousedown, follow, Reach, here, next,
}

module _ {P : Type 0} where
  abbrev pub ids : Option (Drawn P) → List ℕ
  ids none = []
  ids (some d) = d.id ∷ []

  -- Off: no watcher and nothing drawn. Pending: a watcher and nothing drawn. On: a watcher, and both
  -- the circle and the marker drawn, at one place.
  abbrev pub Agree : Icon → Option ℕ → Option (Drawn P) → Option (Drawn P) → Type 0
  Agree inactive none none none = Unit
  Agree pending (some w) none none = Unit
  Agree active (some w) (some d) (some e) = d.place ≡ e.place
  Agree _ _ _ _ = ⊥

  -- The layer groups hold what is drawn, and nothing of earlier times.
  pub record IsCoherent (c : Control P) : Type 0 where
    pub agree : Agree c.icon c.watcher c.circle c.marker
    pub circles : c.circle_layer ≡ ids c.circle
    pub markers : c.marker_layer ≡ ids c.marker

  on_click-IsCoherent : (w : ℕ) (c : Control P) → IsCoherent c → IsCoherent (on_click w c).0
  unfolding on_click
  on_click-IsCoherent w c h = ground arith

  on_position-IsCoherent :
      (w : ℕ) (p : P) (c : Control P)
      → c.watcher ≡ some w
      → IsCoherent c
      → IsCoherent (on_position p c)
  unfolding on_position
  on_position-IsCoherent w p c e h = ground arith

  Step-IsCoherent : {c d : Control P} → Step c d → IsCoherent c → IsCoherent d
  unfolding on_mousedown
  Step-IsCoherent {c} (click w) h = on_click-IsCoherent w c h
  Step-IsCoherent {c} (position w p e) h = on_position-IsCoherent w p c e h
  Step-IsCoherent {c} mousedown h = record {
    agree = h.agree;
    circles = h.circles;
    markers = h.markers;
  }
  Step-IsCoherent {c} (follow f) h = record {
    agree = h.agree;
    circles = h.circles;
    markers = h.markers;
  }

  Reach-IsCoherent : {c d : Control P} → IsCoherent c → Reach c d → IsCoherent d
  Reach-IsCoherent h here = h
  Reach-IsCoherent h (next r s) = Step-IsCoherent s (Reach-IsCoherent h r)

  -- After any events the control is off, pending or on as the button shows it, and the layer groups
  -- hold exactly its circle and marker.
  pub fresh-IsCoherent : {c : Control P} → Reach fresh c → IsCoherent c
  fresh-IsCoherent = Reach-IsCoherent (record { agree = tt; circles = refl; markers = refl })

  throws-IsCoherent :
      (w : ℕ) (c : Control P)
      → IsCoherent c
      → (((on_click w c).1 ≡ true) ↔ (c.icon ≡ pending))
        × (c.icon ≡ pending
            → ((on_click w c).0.icon ≡ inactive) × ((on_click w c).0.watcher ≡ none))
  unfolding on_click
  throws-IsCoherent w c h =
      ((λ t. ground arith, λ t. ground arith), λ t. (ground arith, ground arith))

  -- In a reachable state the handler of a click throws exactly when the position is pending, and
  -- also then the click turns the control off.
  pub on_click_throws :
      {c : Control P} (w : ℕ)
      → Reach fresh c
      → (((on_click w c).1 ≡ true) ↔ (c.icon ≡ pending))
        × (c.icon ≡ pending
            → ((on_click w c).0.icon ≡ inactive) × ((on_click w c).0.watcher ≡ none))
  on_click_throws {c} w r = throws-IsCoherent w c (fresh-IsCoherent r)
