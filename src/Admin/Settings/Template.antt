-- ===== src/Admin/Settings/Template.antt =====
-- web/src/views/SettingsView.vue, lines 64-93: the template, and what its controls do.
use easy_webdav.Prelude.{ℕ, true, List, [], ◌∷◌, ◌++◌, Text, units}
use easy_webdav.Api.Types.{Settings}
use easy_webdav.Format.Quota.{typed}
use easy_webdav.Screen.{message, Widget, shows, button, field, choice}
use easy_webdav.Admin.Fields.{alerts_of, permission_options, quota_fields}
use easy_webdav.Admin.Settings.{SettingsView, saved_values, begin_save}

pub data SettingsEvent : Type 0 where
  close_error close_notice save_all : SettingsEvent
  type_site type_amount choose_permission : Text → SettingsEvent
  choose_unit : ℕ → SettingsEvent

unfoldable pub settings_screen : SettingsView → List (Widget SettingsEvent)
settings_screen view =
    alerts_of view.error view.notice close_error close_notice
    ++ (shows (message "settings" ∷ [])
        ∷ shows (message "settings" ∷ [])
        ∷ field (message "siteName" ∷ []) view.site_name type_site
        ∷ (quota_fields "defaultQuota" view.quota_amount view.quota_unit type_amount choose_unit
            ++ (choice (message "defaultPermission" ∷ []) (
                  permission_options (choose_permission (units "read"))
                    (choose_permission (units "readwrite")))
                ∷ button (message "saveSettings" ∷ []) true save_all
                ∷ [])))

-- A control's event: the view, and the values that are sent, if they are.
unfoldable pub press_settings : SettingsEvent → SettingsView → SettingsView × List Settings
press_settings close_error view = (record view { error = [] }, [])
press_settings close_notice view = (record view { notice = [] }, [])
press_settings save_all view = (begin_save view, saved_values view ∷ [])
press_settings (type_site name) view = (record view { site_name = name }, [])
press_settings (type_amount amount) view = (record view { quota_amount = typed amount }, [])
press_settings (choose_permission value) view = (record view { permission = value }, [])
press_settings (choose_unit unit) view = (record view { quota_unit = unit }, [])
