-- ===== src/Frontend/Locale.antt =====
-- The choice of a language and the loading of the strings: the top of frontend/main.js.
pub mod Choice
pub mod Loading
mod Tests
use go_hauk.Prelude.{
  Text, codes, text_eq, replace_all, ◌==◌, if◌then◌else◌, Dict, insert, lookup, map, ℕ, Bool, true,
  false, ◌&&◌, not, List, [], ◌∷◌, Option, none, some,
}

-- `locales`
abbrev pub locales : List Text
locales =
    codes "ca"
    ∷ codes "de"
    ∷ codes "en"
    ∷ codes "eu"
    ∷ codes "fr"
    ∷ codes "it"
    ∷ codes "nb_NO"
    ∷ codes "nl"
    ∷ codes "nn"
    ∷ codes "pt_BR"
    ∷ codes "ro"
    ∷ codes "ru"
    ∷ codes "tr"
    ∷ codes "uk"
    ∷ []

-- The initial value of `prefLang`.
abbrev pub default_lang : Text
default_lang = codes "en"

-- `locale.split('-').join('_')`
unfoldable pub file_name : Text → Text
file_name = replace_all (codes "-") (codes "_")

-- The inner loop: each supported locale that equals the language replaces `prefLang`.
unfoldable pub scan_locales : Text → List Text → Text → Text
unfolding file_name
scan_locales lang [] pref = pref
scan_locales lang (l ∷ ls) pref =
    scan_locales lang ls (if text_eq lang l then file_name l else pref)

-- The outer loop runs from the last language of the browser to the first, so the first is the last
-- to write.
unfoldable pub scan_languages : List Text → Text → Text
unfolding scan_locales
scan_languages [] pref = pref
scan_languages (l ∷ ls) pref = scan_locales l locales (scan_languages ls pref)

-- The value of `prefLang` after the loops; a browser without `navigator.languages` has `none`.
unfoldable pub pref_lang : Option (List Text) → Text
unfolding scan_languages
pref_lang none = default_lang
pref_lang (some languages) = scan_languages languages default_lang

-- `for (var key in data) LANG[key] = data[key]`
unfoldable pub overwrite : Dict Text → Dict Text → Dict Text
overwrite lang [] = lang
overwrite lang ((k, v) ∷ data') = overwrite (insert k v lang) data'

-- What the two requests for strings can still do.
pub data Stage : Type 0 where
  english preferred ready : Stage

-- `LANG`, and how far the loading is: in stage `ready` the page is localized and `init` has run.
pub record Strings : Type 0 where
  pub lang : Dict Text
  pub stage : Stage

-- An `onreadystatechange` of a request: `readyState`, `status`, whether `JSON.parse` accepts the
-- `responseText`, and what it then gives.
pub record Reply : Type 0 where
  pub ready_state : ℕ
  pub status : ℕ
  pub parses : Bool
  pub body : Dict Text

-- A text that `JSON.parse` rejects ends the handler before it has changed anything.
abbrev is_answer : Reply → Bool
is_answer r = r.ready_state == 4 && r.status == 200 && r.parses

-- The script before any request is answered.
unfoldable pub start : Strings
start = record { lang = []; stage = english }

-- The handlers of `xhr` and of `xhr2`. The second request exists only in stage `preferred`.
unfoldable pub on_english : Text → Reply → Strings
on_english pref r =
    if text_eq pref default_lang
    then record { lang = r.body; stage = ready }
    else record { lang = r.body; stage = preferred }

unfoldable pub on_preferred : Reply → Strings → Strings
unfolding overwrite
on_preferred r s = record { lang = overwrite s.lang r.body; stage = ready }

-- One event of the request that is under way.
unfoldable pub on_reply : Text → Reply → Strings → Strings
unfolding on_english on_preferred
on_reply pref r s =
    if not (is_answer r)
    then s
    else elim s.stage [ english ↦ on_english pref r | preferred ↦ on_preferred r s | ready ↦ s ]

unfoldable pub load : Text → List Reply → Strings → Strings
unfolding on_reply
load pref [] s = s
load pref (r ∷ rs) s = load pref rs (on_reply pref r s)

-- An element with `data-i18n`: its key, the attribute that `data-i18n-attr` names, and what the page
-- shows of it.
pub record Tag : Type 0 where
  pub key : Text
  pub attr : Option Text
  pub attrs : Dict (Option Text)
  pub text : Option Text

-- The body of the loop of `localizeHTML`; a key that `LANG` lacks writes `undefined`.
unfoldable pub localize_tag : Dict Text → Tag → Tag
localize_tag lang t = elim t.attr [
  | some a ↦ record t { attrs = insert a (lookup t.key lang) t.attrs }
  | none ↦ record t { text = lookup t.key lang }
]

unfoldable pub localize_html : Dict Text → List Tag → List Tag
unfolding localize_tag
localize_html lang = map (localize_tag lang)
