-- ===== src/Server/Api/Begun.antt =====
-- What a viewer sees of a share that was begun.
use go_hauk.Prelude.{if◌then◌else◌, Text, codes, ℕ, ◌≤◌, ◌≡◌, refl, ◌≢◌, Bool, some, [], ◌∷◌}
use go_hauk.Frontend.Number.{Float}
use go_hauk.Server.Store.{get}
use go_hauk.Server.Session.{Session}
use go_hauk.Server.Db.{Db, Value, share_key, unix, load_share}
use go_hauk.Server.Db.Keys.{holds}
use go_hauk.Server.Handlers.{Env}
use go_hauk.Server.Db.{Response, nanoseconds, as_share}
use go_hauk.Server.Fetch.{SoloResponse, solo_response, handle_fetch}
use go_hauk.Frontend.Link.{view_link}
use go_hauk.Server.Handlers.Create.{Params}
use go_hauk.Server.Api.View.{fetch}
use go_hauk.Server.Api.Sharing.{ltb-late}

module _ (F : Float) (env : Env F) where
  pub load_share-holds :
      (now t : ℕ) (id : Text) (v : Value F) (d : Db F)
      → holds F (share_key id) d ≡ some (record { value = v; expire_at = t })
      → now ≤ t
      → load_share F now id d ≡ as_share F id (some v)
  unfolding load_share get
  load_share-holds now t id v d e h = rw (e, ltb-late t now h) refl

  -- The answer for a share without points that has the values.
  abbrev fresh_response : ℕ → ℕ → F.Num → Bool → Text → go_hauk.Server.Fetch.Response F
  fresh_response now expire interval encrypted salt = solo_response (record {
    expire = expire;
    server_time = F.div (F.of_ℕ now) (F.of_ℕ nanoseconds);
    interval = interval;
    points = [];
    encrypted = encrypted;
    salt = salt;
  })

  -- The answer to the phone, and what a viewer is sent from then on until the share ends.
  abbrev pub Begun : ℕ → Params F → Text → Response → Db F → Type 0
  Begun expire p sid r d =
      (id : Text) × (r
        ≡ record { status = 200; lines = codes "OK" ∷ sid ∷ view_link env.public_url id ∷ id ∷ [] })
      × ((later : ℕ) (since : Text)
          → later ≤ unix expire
          → id ≢ []
          → fetch F env later id since d
            ≡ fresh_response later expire p.interval p.encrypted
                (if p.encrypted then p.salt else []))
