-- ===== src/Server/Api/Expiry.antt =====
-- What is sent of shares that have ended, and how much is sent of the others.
use go_hauk.Prelude.{
  if◌then◌else◌, length, All, length-append, Text, text_eq, Dict, ℕ, ◌+◌, ◌≤◌, ◌≡◌, refl, Bool,
  true, false, Option, none, some, List, [], ◌∷◌, arith,
}
use go_hauk.Frontend.Number.{Float, le}
use go_hauk.Server.Store.{empty}
use go_hauk.Server.Session.{Cell, Session}
use go_hauk.Server.Shares.{Stored, solo_share, group_share}
use go_hauk.Server.Db.{Db, nanoseconds, unix, load_session, load_share}
use go_hauk.Server.Handlers.{Env}
use go_hauk.Server.Api.{Serves}
use go_hauk.Server.Session.{get_points, scan_points, append_to, is_after, time_of}
use go_hauk.Server.Fetch.{
  Response, invalid, not_found, solo_response, group_response, or_empty, handle_fetch, all_points,
  host_points, fetch_solo, fetch_share, since_of,
}
use go_hauk.Server.Api.View.{fetch}
use go_hauk.Server.Api.Timely.{ends_at, loaded, loaded_share, reached-AllFit}

module _ (F : Float) where
  abbrev count : Option (List (List (Cell F))) → ℕ
  count none = 0
  count (some ps) = length ps

  append_to-count :
      (b : Bool) (acc : Option (List (List (Cell F)))) (p : List (Cell F))
      → count (if b then append_to F acc p else acc) ≤ count acc + 1
  append_to-count false acc p = omega arith
  append_to-count true none p = omega arith
  append_to-count true (some ps) p = omega (arith, length-append ps (p ∷ []))

  scan_points-count :
      (since : F.Num) (ps : List (List (Cell F))) (acc : Option (List (List (Cell F))))
      → count (scan_points F since ps acc) ≤ count acc + length ps
  unfolding scan_points
  scan_points-count since [] acc = omega arith
  scan_points-count since (p ∷ ps) acc = omega (
    arith,
    append_to-count (is_after F since (time_of F p)) acc p,
    scan_points-count since ps (if is_after F since (time_of F p) then append_to F acc p else acc),
  )

  get_points-count :
      (since : F.Num) (s : Session F) → count (get_points F since s) ≤ length s.points
  unfolding get_points
  get_points-count since s = go (le F since (F.of_ℕ 0)) s.encrypted
    where
      go :
          (b c : Bool)
          → count (
              if b
              then some s.points
              else if c
              then some s.points
              else scan_points F since s.points none)
            ≤ length s.points
      go true c = omega arith
      go false true = omega arith
      go false false = omega (arith, scan_points-count since s.points none)

  module _ (env : Env F) where
    abbrev Within : Option (List (List (Cell F))) → Type 0
    Within ps = count ps ≤ env.max_cached_pts

    or_empty-Within :
        (load : Text → Option (Session F)) (ps : Option (List (List (Cell F))))
        → Within ps
        → Within (some (or_empty F load ps))
    or_empty-Within load none h = h
    or_empty-Within load (some ps) h = h

    -- The loaded sessions that are not too long.
    abbrev Short : (Text → Option (Session F)) → Type 0
    Short load =
        (sid : Text) (s : Session F) → load sid ≡ some s → length s.points ≤ env.max_cached_pts

    get_points-Within :
        (load : Text → Option (Session F)) (since : F.Num) (sid : Text) (s : Session F)
        → Short load
        → load sid ≡ some s
        → Within (get_points F since s)
    get_points-Within load since sid s short e =
        omega (arith, short sid s e, get_points-count since s)

    all_points-Within :
        (load : Text → Option (Session F)) (since : F.Num) (hosts : Dict Text)
        → Short load
        → All (λ (nick, ps). Within ps) (all_points F load since hosts)
    unfolding all_points
    all_points-Within load since [] short = tt
    all_points-Within load since ((nick, sid) ∷ hosts) short =
        go (load sid) refl (all_points-Within load since hosts short)
      where
        go :
            (o : Option (Session F))
            → load sid ≡ o
            → All (λ (nick, ps). Within ps) (all_points F load since hosts)
            → All
                (λ (nick, ps). Within ps)
                (host_points F load since nick o (all_points F load since hosts))
        go none e rest = rest
        go (some s) e rest = (get_points-Within load since sid s short e, rest)

    abbrev pub InTime : ℕ → Response F → Type 0
    InTime now invalid = Unit
    InTime now not_found = Unit
    InTime now (solo_response r) = (now ≤ unix r.expire) × Within (some r.points)
    InTime now (group_response r) = (now ≤ unix r.expire) × All (λ (nick, ps). Within ps) r.points

    fetch_share-InTime :
        (load : Text → Option (Session F)) (now : ℕ) (since time : F.Num) (o : Option Stored)
        → Short load
        → ((v : Stored) → o ≡ some v → now ≤ unix (ends_at F env v))
        → InTime now (fetch_share F load since time o)
    unfolding all_points
    fetch_share-InTime load now since time none short h = tt
    fetch_share-InTime load now since time (some (group_share g)) short h =
        (h (group_share g) refl, all_points-Within load since g.hosts short)
    fetch_share-InTime load now since time (some (solo_share x)) short h = go (load x.host) refl
      where
        go :
            (o : Option (Session F))
            → load x.host ≡ o
            → InTime now (fetch_solo F load since time x o)
        go none e = tt
        go (some s) e = (
          h (solo_share x) refl,
          or_empty-Within load (get_points F since s)
              (get_points-Within load since x.host s short e),
        )

    -- In a store that requests, whose times do not go back, have led to from an empty one, a fetch is
    -- answered with a share only if the share has not ended before, and then with at most as many points
    -- of each user as are to be cached.
    pub Serves-fetch :
        (start t now : ℕ) (random : List ℕ) (d : Db F) (id since : Text)
        → Serves F env start (record { memory = empty; random = random }) t d
        → InTime now (fetch F env now id since d)
    unfolding fetch handle_fetch
    Serves-fetch start t now random d id since r = go (text_eq id [])
      where
        go :
            (b : Bool)
            → InTime now (
                if b
                then invalid
                else fetch_share F
                    (λ sid. load_session F now env.max_cached_pts sid d)
                    (since_of F
                      (λ sid. load_session F now env.max_cached_pts sid d)
                      (λ x. load_share F now x d)
                      (λ y. (env.parse_float y).0)
                      since)
                    (F.div (F.of_ℕ now) (F.of_ℕ nanoseconds))
                    (load_share F now id d))
        go true = tt
        go false =
            fetch_share-InTime _ now _ _ (load_share F now id d)
              (λ sid s e. (loaded F env now sid s d (reached-AllFit F env start t random d r) e).1)
              (λ v e. loaded_share F env now id v d (reached-AllFit F env start t random d r) e)
