-- ===== src/Frontend/Locate/Tests.antt =====
-- A viewer shown and hidden, and the theorems at concrete states.
use go_hauk.Prelude.{ℕ, ◌≡◌, refl, ◌↔◌, true, none, some, []}
use go_hauk.Frontend.Locate.{
  inactive, pending, Control, on_click, on_position, fresh, click, position, Reach, here, next,
}
use go_hauk.Frontend.Locate.Coherent.{IsCoherent, fresh-IsCoherent, on_click_throws}

abbrev waiting : Control ℕ
waiting = record fresh { icon = pending; watcher = some 4 }

shown_and_hidden : (on_click 5 (on_position 30 (on_position 20 waiting))).0.circle_layer ≡ []
unfolding on_click on_position
shown_and_hidden = refl

Reach-waiting : Reach fresh waiting
unfolding on_click
Reach-waiting = next here (click 4)

fresh-IsCoherent_example : IsCoherent (on_position 20 waiting)
fresh-IsCoherent_example = fresh-IsCoherent (next Reach-waiting (position 4 20 refl))

on_click_throws_example :
    (((on_click 5 waiting).1 ≡ true) ↔ (pending ≡ pending))
    × (pending ≡ pending
        → ((on_click 5 waiting).0.icon ≡ inactive) × ((on_click 5 waiting).0.watcher ≡ none))
on_click_throws_example = on_click_throws 5 Reach-waiting
