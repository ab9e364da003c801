-- ===== src/Frontend/Link.antt =====
-- The share link: `id` and `init` of frontend/main.js, which read the address of the page, and the
-- link that model/share.go gives out.
pub mod Address
mod Tests
use go_hauk.Prelude.{
  Text, codes, text_eq, index_of, take, drop, ℕ, suc, ◌++◌, ◌∷◌, Option, none, some, if◌then◌else◌,
  Bool,
}

-- `s.substr(i + 1)` for the index of a character, -1 if it is not there.
unfoldable pub after : Text → Option ℕ → Text
after s none = s
after s (some i) = drop (suc i) s

-- `s.substr(0, i)`, where the character was found.
unfoldable pub before : Text → Option ℕ → Text
before s none = s
before s (some i) = take i s

-- The value of `id` for an address.
unfoldable pub share_id : Text → Text
unfolding after before index_of
share_id href = let id = after href (index_of b'?' href) in before id (index_of b'&' id)

-- What `init` does: the root page, with the address that it shows, or the first request.
pub data Landing : Type 0 where
  root_page : Text → Landing
  request : Text → Landing

-- The address that the first request fetches.
abbrev pub fetch_url : Text → Text
fetch_url id = codes "./api/fetch.php?id=" ++ id

abbrev pub from_query : Text → Option ℕ → Landing
from_query href none = root_page href
from_query href (some i) =
    if text_eq (share_id href) (codes "")
    then root_page (take i href)
    else request (fetch_url (share_id href))

unfoldable pub init : Text → Landing
unfolding share_id
init href = from_query href (index_of b'?' href)

-- `ViewLink` of both kinds of share.
unfoldable pub view_link : Text → Text → Text
view_link public_url id = public_url ++ codes "?" ++ id
