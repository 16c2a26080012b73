-- ===== src/Messages/Locale.antt =====
-- web/src/i18n.ts, lines 3-4 and 304-311, and `toggleLocale` of web/src/App.vue: which catalogue is used.
use easy_webdav.Prelude.{
  ℕ, ◌+◌, Bool, ◌&&◌, List, [], ◌∷◌, Option, none, some, Text, units, text_eq, any, leb, take, map,
  if◌then◌else◌,
}
use easy_webdav.Messages.Catalogue.{Catalogue}
use easy_webdav.Messages.En.{en}
use easy_webdav.Messages.Zh.{zh}

-- `toLowerCase` on one unit: that of ASCII. Other units have no effect where the result is only held
-- against ASCII letters other than k.
unfoldable pub to_lower_unit : ℕ → ℕ
to_lower_unit c = if leb b'A' c && leb c b'Z' then c + 32 else c

-- `item.toLowerCase().startsWith('zh')`.
unfoldable pub is_chinese : Text → Bool
unfolding to_lower_unit
is_chinese item = text_eq (take 2 (map to_lower_unit item)) (units "zh")

-- `browser`: an absent `navigator` or list of languages is `none`.
unfoldable pub browser_locale : Option (List Text) → Text
unfolding is_chinese
browser_locale none = units "en"
browser_locale (some languages) = if any is_chinese languages then units "zh-CN" else units "en"

-- `stored || browser`, the empty text for an absent entry of the local storage.
unfoldable pub initial_locale : Text → Option (List Text) → Text
unfolding browser_locale
initial_locale [] languages = browser_locale languages
initial_locale (c ∷ stored) languages = c ∷ stored

-- The state of the language: the current locale and the entry `ew-locale` of the local storage.
pub record Language : Type 0 where
  pub locale : Text
  pub stored : Text

unfoldable pub set_locale : Text → Language → Language
set_locale value language = record { locale = value; stored = value }

unfoldable pub toggle_locale : Language → Language
toggle_locale language =
    let next = if text_eq language.locale (units "en") then units "zh-CN" else units "en" in
    record { locale = next; stored = next }

-- The messages of a locale; English for one that has none.
unfoldable pub messages : Text → Catalogue
messages locale = if text_eq locale (units "zh-CN") then zh else en
