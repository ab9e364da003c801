-- ===== src/Frontend/Locate.antt =====
-- The locate control of frontend/main.js, which shows the viewer of the page on the map, and what
-- else decides whom the map follows by hand. Leaflet's layers are seen as lists of layer ids, and
-- `removeLayer(null)` throws, as the Leaflet that the page loads does.
pub mod Coherent
mod Tests
use go_hauk.Prelude.{
  ◌==◌, if◌then◌else◌, Text, ℕ, suc, ◌≡◌, Bool, true, false, Option, none, some, List, [], ◌∷◌,
}

-- `following`: nobody (`null`), the only user of a share (`true`), or the user with an id.
pub data Following : Type 0 where
  nobody only_user : Following
  user : Text → Following

-- The class of the button.
pub data Icon : Type 0 where
  inactive pending active : Icon

-- A circle or marker on the map, by its layer id.
pub record Drawn (P : Type 0) : Type 0 where
  pub id : ℕ
  pub place : P

-- `watcher`, `selfCircle`, `selfMarker`, the button, `following`, the place of the last `panTo`, the
-- control's part of the two layer groups, and the next layer id. `P` is the type of positions.
pub record Control (P : Type 0) : Type 0 where
  pub watcher : Option ℕ
  pub circle : Option (Drawn P)
  pub marker : Option (Drawn P)
  pub icon : Icon
  pub following : Following
  pub view : Option P
  pub circle_layer : List ℕ
  pub marker_layer : List ℕ
  pub next_id : ℕ

abbrev without : ℕ → List ℕ → List ℕ
without i [] = []
without i (j ∷ js) = if j == i then js else j ∷ without i js

module _ {P : Type 0} where
  -- `group.removeLayer(layer)`; `none` is the exception for `null`.
  unfoldable pub remove_layer : Option (Drawn P) → List ℕ → Option (List ℕ)
  remove_layer none ids = none
  remove_layer (some d) ids = some (without d.id ids)

  -- `layer.setLatLng(place)`
  abbrev pub move : P → Option (Drawn P) → Option (Drawn P)
  move p none = none
  move p (some d) = some (record d { place = p })

  abbrev draw : P → Control P → Control P
  draw p c = record c {
    icon = active;
    circle = some (record { id = c.next_id; place = p });
    marker = some (record { id = suc c.next_id; place = p });
    circle_layer = c.next_id ∷ c.circle_layer;
    marker_layer = suc c.next_id ∷ c.marker_layer;
    next_id = suc (suc c.next_id);
    following = nobody;
    view = some p;
  }

  abbrev place_both : Option (Drawn P) → Option (Drawn P) → P → Control P → Control P
  place_both none none p c = draw p c
  place_both _ _ p c = record c { circle = move p c.circle; marker = move p c.marker }

  -- The callback of `watchPosition`.
  unfoldable pub on_position : P → Control P → Control P
  on_position p c = place_both c.circle c.marker p c

  abbrev hidden : Option (List ℕ) → Option (List ℕ) → Control P → Control P × Bool
  hidden none _ c = (c, true)
  hidden (some cs) none c = (record c { circle_layer = cs }, true)
  hidden (some cs) (some ms) c =
      (record c { circle_layer = cs; marker_layer = ms; circle = none; marker = none }, false)

  -- Unregisters the watcher and hides the viewer; the flag says whether the handler threw.
  unfoldable pub stop : Control P → Control P × Bool
  unfolding remove_layer
  stop c =
      hidden (remove_layer c.circle c.circle_layer) (remove_layer c.marker c.marker_layer)
        (record c { icon = inactive; watcher = none })

  abbrev toggle : Option ℕ → ℕ → Control P → Control P × Bool
  toggle none w c = (record c { icon = pending; watcher = some w }, false)
  toggle (some _) w c = stop c

  -- `anchor.onclick`, where `w` is what `watchPosition` returns if it is called.
  unfoldable pub on_click : ℕ → Control P → Control P × Bool
  unfolding stop
  on_click w c = toggle c.watcher w c

  -- The handler of `mousedown` on the map.
  unfoldable pub on_mousedown : Control P → Control P
  on_mousedown c = record c { following = nobody }

  -- The page before any event.
  abbrev pub fresh : Control P
  fresh = record {
    watcher = none;
    circle = none;
    marker = none;
    icon = inactive;
    following = nobody;
    view = none;
    circle_layer = [];
    marker_layer = [];
    next_id = 0;
  }

  -- What can happen: the browser calls the callback only while a watcher is registered, and other
  -- parts of the page choose whom to follow.
  pub data Step (c : Control P) : Control P → Type 0 where
    click : (w : ℕ) → Step c (on_click w c).0
    position : (w : ℕ) (p : P) → c.watcher ≡ some w → Step c (on_position p c)
    mousedown : Step c (on_mousedown c)
    follow : (f : Following) → Step c (record c { following = f })

  pub data Reach (c : Control P) : Control P → Type 0 where
    here : Reach c c
    next : {d e : Control P} → Reach c d → Step d e → Reach c e
