-- ===== src/Admin/Settings/RoundTrip.antt =====
-- That saving keeps what was loaded (web/src/views/SettingsView.vue).
use easy_webdav.Prelude.{
  ℕ, ◌%◌, ◌≡◌, refl, ap, sym, ◌∙◌, true, false, [], ◌∷◌, Option, none, some, Text, units, String,
  or_else, decimal, whole_number, whole_number-decimal, is_truthy,
}
use easy_webdav.Api.Problem.{ok}
use easy_webdav.Api.Types.{Settings, setting}
use easy_webdav.Format.Quota.{kb, resaved, quota_to_bytes-split_quota}
use easy_webdav.Session.Store.{Session, apply_settings}
use easy_webdav.Admin.Settings.{
  SettingsView, quota_of, saved_values, show_settings, save_settings, begin_save, finish_save,
}

or_else-truthy : (s d : Text) → is_truthy s ≡ true → or_else s d ≡ s
or_else-truthy [] d h = cc
or_else-truthy (c ∷ s) d h = refl

whole_number-or_else : (s : Text) → whole_number (or_else s (units "0")) ≡ whole_number s
unfolding whole_number
whole_number-or_else [] = refl
whole_number-or_else (c ∷ s) = refl

abbrev or_zero : Option ℕ → ℕ
or_zero none = 0
or_zero (some n) = n

quota_of-decimal :
    (values : Settings) (q : ℕ) → setting "default_quota" values ≡ decimal q → quota_of values ≡ q
unfolding quota_of
quota_of-decimal values q h = ap or_zero (
    ap (λ s. whole_number (or_else s (units "0"))) h
    ∙ whole_number-or_else (decimal q)
    ∙ whole_number-decimal q)

-- The three settings of some values, in the order in which `save` sends them.
abbrev three : Text → Text → Text → Settings
three name quota permission =
    ("site_name", name) ∷ ("default_quota", quota) ∷ ("default_permission", permission) ∷ []

abbrev pub restated : Settings → Settings
restated values =
    three (setting "site_name" values) (setting "default_quota" values)
      (setting "default_permission" values)

module _ (t : String → Text) (session : Session) (view : SettingsView) (values : Settings)
    (q : ℕ) where
  saved_values-show_settings :
      setting "default_quota" values ≡ decimal q
      → q % kb ≡ 0
      → is_truthy (setting "site_name" values) ≡ true
      → is_truthy (setting "default_permission" values) ≡ true
      → saved_values (show_settings t (ok values) session view) ≡ restated values
  unfolding saved_values show_settings
  saved_values-show_settings quota whole_kb named permitted =
      let kept =
        ap resaved (quota_of-decimal values q quota) ∙ quota_to_bytes-split_quota q whole_kb in
      let permission =
        or_else-truthy (setting "default_permission" values) (units "readwrite") permitted in
      ap
        (λ name.
          three name (decimal (resaved (quota_of values)))
            (or_else (setting "default_permission" values) (units "readwrite")))
        (or_else-truthy (setting "site_name" values) session.site_name named)
      ∙ ap
          (λ bytes.
            three (setting "site_name" values) bytes
              (or_else (setting "default_permission" values) (units "readwrite")))
          (ap decimal kept ∙ sym quota)
      ∙ ap (three (setting "site_name" values) (setting "default_quota" values)) permission

  -- Saving the settings as they were loaded keeps them: for a site name and a permission that are set and a
  -- quota of whole kilobytes, the three values are sent as they were read, and the store then holds them and
  -- shows the site's name.
  pub save_settings-show_settings :
      setting "default_quota" values ≡ decimal q
      → q % kb ≡ 0
      → is_truthy (setting "site_name" values) ≡ true
      → is_truthy (setting "default_permission" values) ≡ true
      → let loaded = show_settings t (ok values) session view in
        let after = save_settings t (ok tt) session loaded in
        (saved_values loaded ≡ restated values)
        × (after.0.settings ≡ restated values)
        × (after.0.site_name ≡ setting "site_name" values)
        × (after.0.title ≡ setting "site_name" values)
        × (after.1 ≡ record loaded { error = []; notice = t "saved"; busy = false })
  unfolding save_settings finish_save begin_save apply_settings setting
  save_settings-show_settings quota whole_kb named permitted =
      let same = saved_values-show_settings quota whole_kb named permitted in
      let name =
        ap (λ sent. or_else (setting "site_name" sent) session.site_name) same
        ∙ or_else-truthy (setting "site_name" values) session.site_name named in
      (same, same, name, name, refl)
