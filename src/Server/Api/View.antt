-- ===== src/Server/Api/View.antt =====
-- `handleFetch` of api/fetch.go on the store.
use go_hauk.Prelude.{Text, ℕ}
use go_hauk.Frontend.Number.{Float}
use go_hauk.Server.Fetch.{Response, handle_fetch}
use go_hauk.Server.Db.{Db, load_session, load_share, nanoseconds}
use go_hauk.Server.Handlers.{Env}

-- A fetch of the share `id` at the time `now`.
unfoldable pub fetch : (F : Float) → Env F → ℕ → Text → Text → Db F → Response F
unfolding handle_fetch load_session load_share
fetch F env now id since db =
    handle_fetch F (λ sid. load_session F now env.max_cached_pts sid db)
      (λ x. load_share F now x db) (λ t. (env.parse_float t).0) id since
      (F.div (F.of_ℕ now) (F.of_ℕ nanoseconds))
