-- ===== src/Shell/Texts/Fields.antt =====
-- The messages of the fields that the views of the administration share (web/src/views).
use easy_webdav.Prelude.{ℕ, refl, Text, String, is_truthy}
use easy_webdav.Messages.Catalogue.{kind_at}
use easy_webdav.Screen.{when}
use easy_webdav.Screen.Labels.{Speaks-append, Speaks-when}
use easy_webdav.Format.Quota.{Amount}
use easy_webdav.Admin.Fields.{alerts_of, quota_units, is_set, quota_fields}
use easy_webdav.Shell.Texts.Line.{HasLine, IsSpoken, line, either_part}

module _ {E : Type 0} where
  pub alerts_of-IsSpoken : (error notice : Text) (e f : E) → IsSpoken (alerts_of error notice e f)
  unfolding alerts_of kind_at
  alerts_of-IsSpoken error notice e f =
      Speaks-append HasLine (when (is_truthy error) _) _
        (Speaks-when HasLine (is_truthy error) _ ((tt, tt), (tt, tt)))
        (Speaks-when HasLine (is_truthy notice) _ ((tt, tt), (tt, tt)))

  pub quota_fields-IsSpoken :
      (key : String) (amount : Amount) (unit : ℕ) (f : Text → E) (g : ℕ → E)
      → HasLine key
      → IsSpoken (quota_fields key amount unit f g)
  unfolding quota_fields quota_units kind_at
  quota_fields-IsSpoken key amount unit f g h = (
    (h, tt),
    (
      (tt, ((tt, tt), ((tt, tt), ((tt, tt), tt)))),
      ((either_part _ _ (is_set amount) tt (line _ refl), tt), tt),
    ),
  )
