-- ===== src/Frontend/Locale/Choice.antt =====
-- Which language the loops over `navigator.languages` and `locales` choose.
use go_hauk.Prelude.{
  Text, codes, text_eq, text_eq_iff, replace_all, ◌==◌, if◌then◌else◌, Bool, true, false, not, ◌&&◌,
  ◌||◌, List, [], ◌∷◌, Option, none, some, ◌≡◌, refl, ◌∙◌, inl, inr, arith, Bool-cases,
}
use go_hauk.Frontend.Locale.{
  locales, default_lang, file_name, scan_locales, scan_languages, pref_lang,
}

-- Whether a text is in a list.
unfoldable pub contains : Text → List Text → Bool
contains lang [] = false
contains lang (l ∷ ls) = text_eq lang l || contains lang ls

-- The first language of the browser that the page supports.
unfoldable pub first_supported : List Text → Option Text
unfolding contains
first_supported [] = none
first_supported (l ∷ ls) = if contains l locales then some l else first_supported ls

abbrev pub name_or_default : Option Text → Text
name_or_default none = default_lang
name_or_default (some l) = file_name l

scan_locales-file_name :
    (lang : Text) (ls : List Text) → scan_locales lang ls (file_name lang) ≡ file_name lang
unfolding scan_locales
scan_locales-file_name lang [] = refl
scan_locales-file_name lang (l ∷ ls) =
    ground (arith, text_eq_iff lang l, scan_locales-file_name lang ls)

scan_locales-contains :
    (lang : Text) (ls : List Text) (pref : Text)
    → scan_locales lang ls pref ≡ (if contains lang ls then file_name lang else pref)
unfolding scan_locales contains
scan_locales-contains lang [] pref = refl
scan_locales-contains lang (l ∷ ls) pref = elim (Bool-cases (text_eq lang l)) [
  | inl same ↦
      let e : lang ≡ l = (text_eq_iff lang l).0 same in
      rw same (rw (← e) (scan_locales-file_name lang ls))
  | inr other ↦ rw other (scan_locales-contains lang ls pref)
]

scan_languages-first_supported :
    (languages : List Text)
    → scan_languages languages default_lang ≡ name_or_default (first_supported languages)
unfolding scan_languages first_supported
scan_languages-first_supported [] = refl
scan_languages-first_supported (l ∷ ls) =
    scan_locales-contains l locales (scan_languages ls default_lang)
    ∙ ground (arith, scan_languages-first_supported ls)

-- The languages of the browser, none without `navigator.languages`.
abbrev pub listed : Option (List Text) → List Text
listed none = []
listed (some languages) = languages

-- The loops choose the first language of the browser that is in `locales`, spelled as its file is
-- named, and `en` if there is none or the browser lists no languages.
pub pref_lang-first_supported :
    (languages : Option (List Text))
    → pref_lang languages ≡ name_or_default (first_supported (listed languages))
unfolding pref_lang first_supported
pref_lang-first_supported none = refl
pref_lang-first_supported (some languages) = scan_languages-first_supported languages

-- Whether a test holds of each text of a list.
all : (Text → Bool) → List Text → Bool
all p [] = true
all p (l ∷ ls) = p l && all p ls

contains-all :
    (p : Text → Bool) (lang : Text) (ls : List Text)
    → all p ls ≡ true
    → contains lang ls ≡ true
    → p lang ≡ true
unfolding contains all
contains-all p lang [] h c = cc
contains-all p lang (l ∷ ls) h c = ground (arith, text_eq_iff lang l, contains-all p lang ls)

-- Whether a language tag has no underscore: those of browsers join their parts by dashes.
unfoldable pub is_dashed : Text → Bool
is_dashed [] = true
is_dashed (c ∷ cs) = not (c == b'_') && is_dashed cs

abbrev pub regional : List Text
regional = codes "nb_NO" ∷ codes "pt_BR" ∷ []

-- Not both written with dashes and shown by a file of `regional`.
missed : Text → Bool
unfolding is_dashed contains
missed l = not (is_dashed l) || not (contains (file_name l) regional)

locales-missed : all missed locales ≡ true
unfolding all missed file_name replace_all text_eq
locales-missed = refl

unfoldable pub all_dashed : List Text → Bool
unfolding is_dashed
all_dashed [] = true
all_dashed (l ∷ ls) = is_dashed l && all_dashed ls

first_supported-missed :
    (languages : List Text)
    → all_dashed languages ≡ true
    → contains (name_or_default (first_supported languages)) regional ≡ false
unfolding first_supported all_dashed
first_supported-missed [] h = unfold contains text_eq in refl
first_supported-missed (l ∷ ls) h = elim (Bool-cases (contains l locales)) [
  | inl here ↦
      rw here (unfold missed in ground (arith, contains-all missed l locales locales-missed here))
  | inr gone ↦ rw gone (first_supported-missed ls (ground arith))
]

-- A browser that writes its language tags with dashes never gets the strings of `nb_NO` or `pt_BR`,
-- whatever languages it lists.
pub pref_lang-regional :
    (languages : List Text)
    → all_dashed languages ≡ true
    → contains (pref_lang (some languages)) regional ≡ false
pref_lang-regional languages h =
    rw (pref_lang-first_supported (some languages)) (first_supported-missed languages h)
