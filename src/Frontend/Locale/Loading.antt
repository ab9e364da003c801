-- ===== src/Frontend/Locale/Loading.antt =====
-- Which strings the page has once its requests are answered.
use go_hauk.Prelude.{
  Text, text_eq, text_eq_iff, Dict, lookup, insert, lookup-insert, if◌then◌else◌, List, [], ◌∷◌,
  Option, none, some, ◌≡◌, refl, arith,
}
use go_hauk.Frontend.Locale.{
  Strings, Reply, preferred, ready, default_lang, overwrite, start, on_reply, load, is_answer,
}

-- No key occurs twice, as in every object.
abbrev pub IsDistinct : Dict Text → Type 0
IsDistinct [] = Unit
IsDistinct ((k, v) ∷ d) = (lookup k d ≡ none) × IsDistinct d

abbrev pub or_else : Option Text → Option Text → Option Text
or_else none o = o
or_else (some v) o = some v

-- A string of the preferred language hides the one of `lang`; the strings it lacks stay.
pub lookup-overwrite :
    (k : Text) (lang extra : Dict Text)
    → IsDistinct extra
    → lookup k (overwrite lang extra) ≡ or_else (lookup k extra) (lookup k lang)
unfolding overwrite lookup
lookup-overwrite k lang [] d = refl
lookup-overwrite k lang ((j, v) ∷ extra) d =
    ground
      (arith, lookup-overwrite k (insert j v lang) extra, lookup-insert j k v lang, text_eq_iff j k)

-- The answers among the events, in their order.
unfoldable pub answers : List Reply → List Reply
answers [] = []
answers (r ∷ rs) = if is_answer r then r ∷ answers rs else answers rs

-- What the answers make of the strings: English alone for English, and else English overwritten by
-- the preferred language, for which the page waits.
unfoldable pub loaded : Text → List Reply → Strings
loaded pref [] = start
loaded pref (r ∷ []) = record {
  lang = r.body;
  stage = if text_eq pref default_lang then ready else preferred;
}
loaded pref (r ∷ q ∷ rs) =
    if text_eq pref default_lang
    then record { lang = r.body; stage = ready }
    else record { lang = overwrite r.body q.body; stage = ready }

load-ready :
    (pref : Text) (rs : List Reply) (d : Dict Text)
    → load pref rs (record { lang = d; stage = ready }) ≡ record { lang = d; stage = ready }
unfolding load on_reply
load-ready pref [] d = refl
load-ready pref (r ∷ rs) d = ground (arith, load-ready pref rs d)

abbrev from_preferred : List Reply → Dict Text → Strings
from_preferred [] d = record { lang = d; stage = preferred }
from_preferred (q ∷ rs) d = record { lang = overwrite d q.body; stage = ready }

load-preferred :
    (pref : Text) (rs : List Reply) (d : Dict Text)
    → load pref rs (record { lang = d; stage = preferred }) ≡ from_preferred (answers rs) d
unfolding load on_reply answers
load-preferred pref [] d = refl
load-preferred pref (r ∷ rs) d =
    ground (arith, load-preferred pref rs d, load-ready pref rs (overwrite d r.body))

after_english :
    (pref : Text) (r : Reply) (rs : List Reply)
    → (if text_eq pref default_lang
        then record { lang = r.body; stage = ready }
        else from_preferred rs r.body)
      ≡ loaded pref (r ∷ rs)
unfolding loaded
after_english pref r [] = ground arith
after_english pref r (q ∷ rs) = ground arith

-- Whatever events the requests have, the strings are those of the answers: events that are no
-- successful answer change nothing, and with a preferred language other than English the page is
-- ready only after a second answer.
pub load-loaded : (pref : Text) (rs : List Reply) → load pref rs start ≡ loaded pref (answers rs)
unfolding load on_reply answers start
load-loaded pref [] = unfold loaded start in refl
load-loaded pref (r ∷ rs) = ground (
  arith,
  load-loaded pref rs,
  after_english pref r (answers rs),
  load-ready pref rs r.body,
  load-preferred pref rs r.body,
)
