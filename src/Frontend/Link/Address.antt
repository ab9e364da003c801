-- ===== src/Frontend/Link/Address.antt =====
-- The page finds the share that a link names.
use mathlib.Core.List.{append_assoc, append-nil}
use go_hauk.Prelude.{
  Text, text_eq_iff, index_of, take, drop, length, ℕ, suc, ◌++◌, [], ◌∷◌, none, some, ◌≡◌, refl,
  ◌≢◌, arith,
}
use go_hauk.Frontend.Link.{after, before, share_id, request, fetch_url, init, view_link}

index_of-append :
    (c : ℕ) (s t : Text) → index_of c s ≡ none → index_of c (s ++ c ∷ t) ≡ some (length s)
unfolding index_of
index_of-append c [] t h = ground arith
index_of-append c (d ∷ s) t h = ground (arith, index_of-append c s t)

drop-append : (s : Text) (c : ℕ) (t : Text) → drop (suc (length s)) (s ++ c ∷ t) ≡ t
drop-append [] c t = refl
drop-append (d ∷ s) c t = drop-append s c t

take-append : (s t : Text) → take (length s) (s ++ t) ≡ s
take-append [] t = refl
take-append (d ∷ s) t = rw (take-append s t)

-- The parameters behind the id: none, or `&` and more.
abbrev pub IsRest : Text → Type 0
IsRest [] = Unit
IsRest (c ∷ s) = c ≡ b'&'

before_lem :
    (id rest : Text)
    → index_of b'&' id ≡ none
    → IsRest rest
    → before (id ++ rest) (index_of b'&' (id ++ rest)) ≡ id
unfolding before
before_lem id [] h r = rw (append-nil id, h)
before_lem id (c ∷ rest) h r = rw (r, index_of-append b'&' id rest h) (take-append id (b'&' ∷ rest))

-- `id` is what stands between the first `?` of an address and the `&` behind it, or its end.
pub share_id_lem :
    (base id rest : Text)
    → index_of b'?' base ≡ none
    → index_of b'&' id ≡ none
    → IsRest rest
    → share_id (base ++ b'?' ∷ (id ++ rest)) ≡ id
unfolding share_id after
share_id_lem base id rest hb hi hr =
    rw (index_of-append b'?' base (id ++ rest) hb, drop-append base b'?' (id ++ rest))
      (before_lem id rest hi hr)

view_link_append :
    (public_url id rest : Text)
    → view_link public_url id ++ rest ≡ public_url ++ b'?' ∷ (id ++ rest)
unfolding view_link
view_link_append public_url id rest = simp append_assoc

-- A link of the server, opened in the browser, asks the server for the share of the link, whatever
-- parameters are added behind it.
pub init-view_link :
    (public_url id rest : Text)
    → index_of b'?' public_url ≡ none
    → index_of b'&' id ≡ none
    → id ≢ []
    → IsRest rest
    → init (view_link public_url id ++ rest) ≡ request (fetch_url id)
unfolding init
init-view_link public_url id rest hb hi ne hr =
    rw (view_link_append public_url id rest, index_of-append b'?' public_url (id ++ rest) hb)
      (rw (share_id_lem public_url id rest hb hi hr) (ground (arith, text_eq_iff id [])))
