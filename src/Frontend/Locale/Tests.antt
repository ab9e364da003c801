-- ===== src/Frontend/Locale/Tests.antt =====
-- Runs of the language choice and of the loading, and the theorems at concrete inputs.
use go_hauk.Prelude.{
  true, false, Text, codes, text_eq, replace_all, Dict, false, List, [], ◌∷◌, some, ◌≡◌, refl,
}
use go_hauk.Frontend.Locale.{Reply, pref_lang, load, start}
use go_hauk.Frontend.Locale.Choice.{
  first_supported, name_or_default, pref_lang-first_supported, contains, regional, is_dashed,
  all_dashed, pref_lang-regional,
}
use go_hauk.Frontend.Locale.Loading.{answers, loaded, load-loaded}

abbrev browser : List Text
browser = codes "pt-BR" ∷ codes "nn" ∷ codes "en" ∷ []

runs : pref_lang (some browser) ≡ codes "nn"
unfolding pref_lang text_eq replace_all
runs = refl

underscored : pref_lang (some (codes "nb_NO" ∷ [])) ≡ codes "nb_NO"
unfolding pref_lang text_eq replace_all
underscored = refl

pref_lang-first_supported_example :
    pref_lang (some browser) ≡ name_or_default (first_supported browser)
pref_lang-first_supported_example = pref_lang-first_supported (some browser)

pref_lang-regional_example : contains (pref_lang (some browser)) regional ≡ false
unfolding all_dashed is_dashed
pref_lang-regional_example = pref_lang-regional browser refl

abbrev english_strings : Dict Text
english_strings = (codes "a", codes "Hello") ∷ (codes "b", codes "Bye") ∷ []

abbrev norwegian_strings : Dict Text
norwegian_strings = (codes "a", codes "Hei") ∷ []

abbrev events : List Reply
events =
    record { ready_state = 2; status = 200; parses = false; body = [] }
    ∷ record { ready_state = 4; status = 200; parses = false; body = [] }
    ∷ record { ready_state = 4; status = 200; parses = true; body = english_strings }
    ∷ record { ready_state = 4; status = 404; parses = false; body = [] }
    ∷ []

load-loaded_example : load (codes "nn") events start ≡ loaded (codes "nn") (answers events)
load-loaded_example = load-loaded (codes "nn") events
