-- ===== src/Admin/Fields.antt =====
-- What the templates of the views under web/src/views share: the alerts, the fields of a quota and the
-- choice of a permission, as UsersView.vue and SettingsView.vue write them.
use easy_webdav.Prelude.{
  ℕ, Bool, true, not, List, [], ◌∷◌, ◌++◌, Text, units, String, is_truthy, if◌then◌else◌,
  amount_text, ◌==◌,
}
use easy_webdav.Screen.{message, raw, Label, Widget, shows, button, field, choice, when}
use easy_webdav.Format.Quota.{Amount, tenths, typed, quota_to_bytes, kb, mb, gb}
use easy_webdav.Format.Size.{format_size}

-- An amount as it stands in its field, and whether it is truthy.
abbrev amount_shown : Amount → Text
amount_shown (tenths n) = amount_text n
amount_shown (typed s) = s

abbrev pub is_set : Amount → Bool
is_set (tenths n) = not (n == 0)
is_set (typed s) = is_truthy s

module _ {E : Type 0} where
  unfoldable pub alerts_of : Text → Text → E → E → List (Widget E)
  alerts_of error notice close_error close_notice =
      when (is_truthy error) (shows (raw error ∷ []) ∷ button [] true close_error ∷ [])
      ++ when (is_truthy notice) (shows (raw notice ∷ []) ∷ button [] true close_notice ∷ [])

  -- `quotaUnits`.
  unfoldable pub quota_units : (ℕ → E) → List (Label × E)
  quota_units choose =
      (raw (units "KB") ∷ [], choose kb)
      ∷ (raw (units "MB") ∷ [], choose mb)
      ∷ (raw (units "GB") ∷ [], choose gb)
      ∷ []

  -- `permissionOptions`.
  unfoldable pub permission_options : E → E → List (Label × E)
  permission_options read_only read_write =
      (message "readOnly" ∷ [], read_only) ∷ (message "readWrite" ∷ [], read_write) ∷ []

  unfoldable pub quota_fields : String → Amount → ℕ → (Text → E) → (ℕ → E) → List (Widget E)
  quota_fields key amount unit type_amount choose_unit =
      field (message key ∷ []) (amount_shown amount) type_amount
      ∷ choice [] (quota_units choose_unit)
      ∷ shows (
          (if is_set amount
            then raw (format_size (quota_to_bytes amount unit))
            else message "unlimited")
          ∷ [])
      ∷ []
