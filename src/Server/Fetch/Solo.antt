-- ===== src/Server/Fetch/Solo.antt =====
-- Polling a share of one user loses nothing.
use go_hauk.Prelude.{
  Bool-cases, last?, All, Text, codes, text_eq, text_eq_iff, Dict, lookup, ◌≡◌, refl, ◌∙◌, ◌≢◌, ◌⊎◌,
  inl, inr, false, Option, none, some, List, [], ◌∷◌, arith,
}
use go_hauk.Frontend.Number.{Float, le}
use go_hauk.Frontend.Trail.{Row, Point, Share, receive}
use go_hauk.Frontend.Trail.Incremental.{IsOrder, IsComparable, newer, Agree}
use go_hauk.Frontend.Shares.{oldest_point_time}
use go_hauk.Frontend.Shares.Oldest.{receive-oldest_point_time}
use go_hauk.Server.Session.{Cell, Session, get_points}
use go_hauk.Server.Session.Since.{as_rows, as_json, extend, IsTimed, get_points-newer}
use go_hauk.Server.Fetch.{SoloResponse, solo_response, or_empty, since_of, handle_fetch}
use go_hauk.Server.Shares.{SoloShare, Stored, solo_share}

module _ (F : Float) where
  module _ (load_session : Text → Option (Session F)) where
    abbrev rows_or_empty : Option (List (Row F)) → List (Row F)
    rows_or_empty none = []
    rows_or_empty (some rs) = rs

    as_rows-or_empty :
        (ps : Option (List (List (Cell F))))
        → as_rows F (or_empty F load_session ps) ≡ rows_or_empty (as_json F ps)
    as_rows-or_empty none = refl
    as_rows-or_empty (some ps) = refl

    rows_or_empty-extend : (rs : List (Row F)) → rows_or_empty (extend F none rs) ≡ rs
    rows_or_empty-extend [] = refl
    rows_or_empty-extend (r ∷ rs) = refl

    -- The rows that are sent: all of them, or the newer ones.
    solo_rows :
        (since : F.Num) (s : Session F)
        → s.encrypted ≡ false
        → All (IsTimed F) s.points
        → (as_rows F (or_empty F load_session (get_points F since s)) ≡ as_rows F s.points)
          ⊎ (as_rows F (or_empty F load_session (get_points F since s))
              ≡ newer F since (as_rows F s.points))
    unfolding get_points
    solo_rows since s clear timed = elim (Bool-cases (le F since (F.of_ℕ 0))) [
      | inl early ↦ inl (rw (get_points, early) refl)
      | inr late ↦ inr (
          as_rows-or_empty (get_points F since s)
          ∙ rw (get_points-newer F since s late clear timed)
              (rows_or_empty-extend (newer F since (as_rows F s.points))))
    ]

    module _ (o : IsOrder F) (load_share : Text → Option Stored) (parse_float : Text → F.Num) where
      -- When the viewer of a stored share of one user polls with the time of the oldest last point,
      -- the answer makes the same of the user's trail, which has a point, as all points of the
      -- session do, but for `state`. The session is there and in the clear, and its points have a
      -- time; numbers are strictly ordered, the oldest time is not NaN, and the server reads it as
      -- the client wrote it.
      pub handle_fetch-receive :
          (id : Text) (now : F.Num) (share : SoloShare) (s : Session F) (shares : Dict (Share F))
          (e : Share F) (p : Point F)
          → id ≢ []
          → load_share id ≡ some (solo_share share)
          → load_session share.host ≡ some s
          → s.encrypted ≡ false
          → All (IsTimed F) s.points
          → lookup (codes "") shares ≡ some e
          → last? e.points ≡ some p
          → IsComparable F (oldest_point_time F shares)
          → since_of F load_session load_share parse_float (F.text (oldest_point_time F shares))
            ≡ oldest_point_time F shares
          → (r : SoloResponse F) × (handle_fetch F load_session load_share parse_float id
                (F.text (oldest_point_time F shares))
                now
              ≡ solo_response r)
            × Agree F (receive F (as_rows F r.points) e) (receive F (as_rows F s.points) e)
      unfolding handle_fetch
      handle_fetch-receive id now share s shares e p some_id found hosted clear timed listed end
            known read =
          let since = oldest_point_time F shares in
          let named : text_eq id [] ≡ false = ground (arith, text_eq_iff id []) in
          (
            record {
              expire = share.expire;
              server_time = now;
              interval = s.interval;
              points = or_empty F load_session (get_points F since s);
              encrypted = s.encrypted;
              salt = s.salt;
            },
            rw (handle_fetch, named, found, hosted, read) refl,
            elim (solo_rows since s clear timed) [
              | inl all ↦ rw all (record { same = refl; last = refl })
              | inr new ↦ rw new (
                  receive-oldest_point_time F o shares (codes "") e p (as_rows F s.points) known
                    listed end)
            ],
          )
