-- ===== src/Server/Api.antt =====
-- The routes of api/server.go that change the store, and requests one after another. The limiters that
-- stand before two of them are in Limiter.antt.
pub mod Steps
pub mod Free
pub mod Ending
pub mod Begin
pub mod Handled
pub mod Led
pub mod Found
pub mod Isolation
pub mod Pins
pub mod Timely
pub mod Expiry
pub mod View
pub mod Sharing
pub mod Begun
pub mod Adopted
pub mod Stopped
mod Tests
use go_hauk.Prelude.{ℕ, ◌≤◌, Option, List, [], ◌∷◌}
use go_hauk.Frontend.Number.{Float}
use go_hauk.Server.Action.{Action, Outcome, done, reply}
use go_hauk.Server.Db.{Response, Db}
use go_hauk.Server.Handlers.{Env, Form}
use go_hauk.Server.Handlers.Post.{handle_post}
use go_hauk.Server.Handlers.Stop.{handle_stop}
use go_hauk.Server.Handlers.Create.{handle_create}
use go_hauk.Server.Handlers.Adopt.{handle_adopt}
use go_hauk.Server.Handlers.NewLink.{handle_new_link}

pub data Request : Type 0 where
  create post stop adopt new_link : Option Form → Request

module _ (F : Float) (env : Env F) where
  unfoldable pub serve : ℕ → Request → Action (Db F) Response Response
  serve now (create form) = handle_create F env now form
  serve now (post form) = handle_post F env now form
  serve now (stop form) = handle_stop F env now form
  serve now (adopt form) = handle_adopt F env now form
  serve now (new_link form) = handle_new_link F env now form

  -- What was written to the client.
  abbrev pub response : Outcome Response Response → Response
  response (done r) = r
  response (reply r) = r

  -- The states that are reached by requests whose times do not go back.
  pub data Serves (now : ℕ) (db : Db F) : ℕ → Db F → Type 0 where
    idle : (t : ℕ) → now ≤ t → Serves now db t db
    serving :
        {t : ℕ} {d : Db F} (u : ℕ) (r : Request)
        → Serves now db t d
        → t ≤ u
        → Serves now db u (serve u r d).1
