-- ===== src/Server/Api/Pins.antt =====
-- What the requests do to the PINs of groups.
use go_hauk.Prelude.{Text, ℕ, ◌≤◌, ◌≡◌, sym, inl, some, List}
use go_hauk.Frontend.Number.{Float}
use go_hauk.Frontend.Countdown.{show}
use go_hauk.Server.Store.{empty}
use go_hauk.Server.Shares.{GroupShare, group_share}
use go_hauk.Server.Db.{Db, load_share, load_by_pin}
use go_hauk.Server.Handlers.{Env}
use go_hauk.Server.Api.{Serves}
use go_hauk.Server.Api.Steps.{
  Step, take_random, start_session, change_session, end_session, add_solo, end_solo, add_group,
  host_joins, host_leaves, end_group, SameGroup,
}
use go_hauk.Server.Api.Handled.{Serves-invariant}
use go_hauk.Server.Api.Found.{
  free-NoPin, solo-NoPin, group-OnlyPin, pinned-OnlyPin, load_by_pin-own,
}
use go_hauk.Server.Api.Led.{
  PinsLead, OnlyPin, empty-PinsLead, later-PinsLead, save_solo-PinsLead, delete_solo-PinsLead,
  put_session-PinsLead, save_group-PinsLead, delete_group-PinsLead, random-PinsLead,
  delete_session-PinsLead,
}

module _ (F : Float) (env : Env F) where
  same-OnlyPin :
      (now : ℕ) (g h : GroupShare) (d : Db F)
      → SameGroup F env.max_cached_pts g h
      → OnlyPin F now d g.id (show g.group_pin)
      → OnlyPin F now d h.id (show h.group_pin)
  unfolding SameGroup
  same-OnlyPin now g h d same only = rw (sym same.0, sym same.2) only

  Step-PinsLead :
      (now : ℕ) (who : Text) (d e : Db F)
      → Step F env.max_cached_pts now who d e
      → PinsLead F now d
      → PinsLead F now e
  Step-PinsLead now who d _ (take_random bs) k = random-PinsLead F now bs d k
  Step-PinsLead now who d _ (start_session s i fresh) k = put_session-PinsLead F now s d k
  Step-PinsLead now who d _ (change_session s t l next) k = put_session-PinsLead F now t d k
  Step-PinsLead now who d _ end_session k = delete_session-PinsLead F now who d k
  Step-PinsLead now who d _ (add_solo x free) k =
      save_solo-PinsLead F now x d (free-NoPin F now x.id d k free) k
  Step-PinsLead now who d _ (end_solo id x l) k =
      delete_solo-PinsLead F now id d (solo-NoPin F now id x d k l) k
  Step-PinsLead now who d _ (add_group g free) k =
      save_group-PinsLead F now g d (λ p t w. inl (free-NoPin F now g.id d k free p t w)) k
  Step-PinsLead now who d _ (host_joins pin g h l same) k =
      save_group-PinsLead F now h d (same-OnlyPin now g h d same (pinned-OnlyPin F now pin g d k l))
        k
  Step-PinsLead now who d _ (host_leaves id g h l same) k =
      save_group-PinsLead F now h d (same-OnlyPin now g h d same (group-OnlyPin F now id g d k l)) k
  Step-PinsLead now who d _ (end_group id g h l same) k =
      delete_group-PinsLead F now h d (same-OnlyPin now g h d same (group-OnlyPin F now id g d k l))
        k

  -- In a store that requests, whose times do not go back, have led to from an empty one, what is found
  -- by a PIN is a group that has this PIN and is stored as a group under its id.
  pub Serves-load_by_pin :
      (start t now : ℕ) (random : List ℕ) (d : Db F) (pin : Text) (g : GroupShare)
      → Serves F env start (record { memory = empty; random = random }) t d
      → t ≤ now
      → load_by_pin F now pin d ≡ some g
      → (show g.group_pin ≡ pin) × (load_share F now g.id d ≡ some (group_share g))
  Serves-load_by_pin start t now random d pin g s h e =
      load_by_pin-own F now pin g d
        (later-PinsLead F t now d h (
          Serves-invariant F env (PinsLead F) (later-PinsLead F) Step-PinsLead start _ t d s
            (empty-PinsLead F start random)))
        e
