-- ===== src/Server/Handlers/Create/Checks.antt =====
-- Which forms `handleCreate` accepts.
use go_hauk.Prelude.{
  ltb-false, not-false, codes, text_eq, ℕ, ◌≤◌, ◌<◌, ◌≡◌, refl, Bool, true, false, ◌&&◌, ◌||◌, some,
  arith,
}
use go_hauk.Frontend.Number.{Float, le}
use go_hauk.Server.Action.{Ends}
use go_hauk.Server.Action.Rules.{reply_if-Ends, or_reply-Ends, pure-Ends}
use go_hauk.Server.Db.{Db}
use go_hauk.Server.Handlers.{Env, Form, form_value, is_empty, ℤ, pos, atoi}
use go_hauk.Server.Handlers.Create.{
  Params, mode_of, is_group, is_join, is_zero, positive, check_form,
}

module _ (F : Float) (env : Env F) where
  -- What is kept of a form is what it says.
  unfoldable pub FromForm : Form → Params F → Type 0
  FromForm f p =
      (p.mode ≡ mode_of (atoi (form_value (codes "mod") f)).0)
      × (atoi (form_value (codes "dur") f) ≡ (pos p.duration, true))
      × (p.interval ≡ (env.parse_float (form_value (codes "int") f)).0)
      × (p.encrypted ≡ text_eq (form_value (codes "e2e") f) (codes "1"))
      × (p.salt ≡ form_value (codes "salt") f)
      × (p.nickname ≡ form_value (codes "nic") f)
      × (p.custom_link ≡ form_value (codes "lid") f)
      × (p.user ≡ form_value (codes "usr") f)

  -- The duration and the interval are within the bounds of the configuration, the user is known, and
  -- what a group or a sealed session needs is there.
  unfoldable pub Accepted : Form → Params F → Type 0
  unfolding FromForm
  Accepted f p =
      (0 < p.duration)
      × (p.duration ≤ env.max_duration)
      × (le F p.interval (F.of_ℕ 0) ≡ false)
      × (F.lt (F.of_ℕ env.max_duration) p.interval ≡ false)
      × (F.lt p.interval env.min_interval ≡ false)
      × (env.authenticate p.user (form_value (codes "pwd") f) ≡ true)
      × (is_group p.mode && p.encrypted ≡ false)
      × (is_group p.mode && is_empty p.nickname ≡ false)
      × (is_join p.mode && is_zero p.pin ≡ false)
      × (p.encrypted && is_empty p.salt ≡ false)
      × FromForm f p

  positive_lem : (r : ℤ × Bool) (d : ℕ) → positive r ≡ some d → 0 < d
  positive_lem r d e = ground (arith)

  right-false : (a b : Bool) → a || b ≡ false → b ≡ false
  right-false a b e = ground (arith)

  positive-int : (r : ℤ × Bool) (d : ℕ) → positive r ≡ some d → r ≡ (pos d, true)
  positive-int r d e = ground (arith)

  pub check_form-Accepted :
      (f : Form) (db : Db F)
      → Ends (λ _ d. d ≡ db) (λ p d. Accepted f p × (d ≡ db)) (check_form F env f db)
  unfolding check_form Accepted
  check_form-Accepted f db = reply_if-Ends _ _ _ _ refl λ _. reply_if-Ends _ _ _ _ refl λ user.
      or_reply-Ends _ _ _ _ refl λ d e. reply_if-Ends _ _ _ _ refl λ low.
        reply_if-Ends _ _ _ _ refl λ max. reply_if-Ends _ _ _ _ refl λ far.
          reply_if-Ends _ _ _ _ refl λ short. reply_if-Ends _ _ _ _ refl λ sealed.
            reply_if-Ends _ _ _ _ refl λ nick. reply_if-Ends _ _ _ _ refl λ pin.
              reply_if-Ends _ _ _ _ refl λ salt. pure-Ends _ _ (
                (
                  positive_lem _ d e,
                  ltb-false _ _ max,
                  right-false _ _ low,
                  far,
                  short,
                  not-false _ user,
                  sealed,
                  nick,
                  pin,
                  salt,
                  (refl, positive-int _ d e, refl, refl, refl, refl, refl, refl),
                ),
                refl,
              )
