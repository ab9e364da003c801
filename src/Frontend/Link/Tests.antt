-- ===== src/Frontend/Link/Tests.antt =====
-- Addresses that the page reads.
use go_hauk.Prelude.{Text, codes, text_eq, ◌++◌, ◌≡◌, refl}
use go_hauk.Frontend.Link.{share_id, root_page, request, fetch_url, init, view_link}

abbrev base : Text
base = codes "https://example.com/"

abbrev link_id : Text
link_id = codes "ABCD-1234"

no_query : init base ≡ root_page base
unfolding init
no_query = refl

empty_id : init (base ++ codes "?&x=1") ≡ root_page base
unfolding init text_eq
empty_id = refl

link_opened : init (view_link base link_id ++ codes "&lang=en") ≡ request (fetch_url link_id)
unfolding init view_link share_id text_eq
link_opened = refl
