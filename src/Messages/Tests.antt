-- ===== src/Messages/Tests.antt =====
-- The messages of web/src/error-codes.ts and web/src/i18n.ts at concrete inputs.
use easy_webdav.Prelude.{◌≡◌, refl, [], ◌∷◌, some, units}
use easy_webdav.Messages.Catalogue.{kind_at, one_line}
use easy_webdav.Messages.ErrorCodes.{entry, message_for, error_key}
use easy_webdav.Messages.Locale.{messages, browser_locale, Language}
use easy_webdav.Messages.Laws.{kind_at-error_key}

fallbacks :
    (message_for "UNKNOWN" "fallback" ≡ "fallback")
    × (message_for "INVALID_PATH" "" ≡ "The path is invalid")
unfolding message_for entry
fallbacks = (refl, refl)

chinese_browser : browser_locale (some (units "fr" ∷ units "ZH-TW" ∷ [])) ≡ units "zh-CN"
unfolding browser_locale
chinese_browser = refl

kind_at-error_key_example :
    kind_at (error_key (some "LAST_ADMIN")) (messages (units "zh-CN")) ≡ some one_line
kind_at-error_key_example = kind_at-error_key (some "LAST_ADMIN") (units "zh-CN")

abbrev english : Language
english = record { locale = units "en"; stored = [] }
