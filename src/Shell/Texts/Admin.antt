-- ===== src/Shell/Texts/Admin.antt =====
-- The messages of the views of the settings, the overview, the account and the login (web/src/views).
use easy_webdav.Prelude.{ℕ, refl, not, ◌&&◌, Option, none, some, Text, is_truthy, ◌==◌, length}
use easy_webdav.Floats.{Floats}
use easy_webdav.Api.Types.{User, UserUsage, UsageOverview}
use easy_webdav.Messages.Catalogue.{kind_at}
use easy_webdav.Screen.{when, for_each}
use easy_webdav.Screen.Labels.{HasKeys, Speaks-append, Speaks-when, Speaks-for_each}
use easy_webdav.Session.Store.{Session}
use easy_webdav.Session.Login.{LoginView}
use easy_webdav.Session.LoginPage.{login_screen}
use easy_webdav.Admin.Fields.{alerts_of, permission_options, quota_fields}
use easy_webdav.Admin.Settings.{SettingsView}
use easy_webdav.Admin.Settings.Template.{settings_screen}
use easy_webdav.Admin.Overview.{OverviewView, overview_users, largest}
use easy_webdav.Admin.Overview.Template.{
  free_label, free_shown, metrics, usage_line, overview_screen,
}
use easy_webdav.Admin.Account.{AccountView}
use easy_webdav.Admin.Account.Template.{account_heading, account_screen}
use easy_webdav.Shell.Texts.Line.{HasLine, IsSpoken, line, either, either_label, said}
use easy_webdav.Shell.Texts.Fields.{alerts_of-IsSpoken, quota_fields-IsSpoken}

pub settings_screen-IsSpoken : (view : SettingsView) → IsSpoken (settings_screen view)
unfolding settings_screen permission_options kind_at
settings_screen-IsSpoken view =
    Speaks-append HasLine (alerts_of view.error view.notice _ _) _
      (alerts_of-IsSpoken view.error view.notice _ _)
      (
        said _ refl,
        (
          said _ refl,
          (
            said _ refl,
            Speaks-append HasLine
                (quota_fields "defaultQuota" view.quota_amount view.quota_unit _ _) _
                (quota_fields-IsSpoken "defaultQuota" view.quota_amount view.quota_unit _ _
                  (line _ refl))
                ((said _ refl, (said _ refl, (said _ refl, tt))), (said _ refl, tt)),
          ),
        ),
      )

usage_line-IsSpoken : (floats : Floats) (item : UserUsage) → IsSpoken (usage_line floats item)
unfolding usage_line kind_at
usage_line-IsSpoken floats item =
    ((tt, tt), ((tt, either_label _ _ (item.user.quota == 0) tt (tt, (tt, tt))), (tt, tt)))

free_label-HasKeys : (free : Option ℕ) → HasKeys HasLine (free_label free)
unfolding free_label kind_at
free_label-HasKeys none = said _ refl
free_label-HasKeys (some free) = either_label _ _ (free == 0) (said _ refl) (tt, tt)

free_shown-HasKeys : (overview : Option UsageOverview) → HasKeys HasLine (free_shown overview)
unfolding free_shown
free_shown-HasKeys none = free_label-HasKeys none
free_shown-HasKeys (some overview) = free_label-HasKeys overview.free

pub overview_screen-IsSpoken :
    (floats : Floats) (view : OverviewView) → IsSpoken (overview_screen floats view)
unfolding overview_screen metrics kind_at
overview_screen-IsSpoken floats view =
    let items = largest (overview_users view.overview) in
    Speaks-append HasLine (alerts_of view.error view.notice _ _) _
      (alerts_of-IsSpoken view.error view.notice _ _)
      (
        said _ refl,
        (
          said _ refl,
          (
            said _ refl,
            (
              (line _ refl, (tt, tt)),
              (
                (line _ refl, (tt, tt)),
                (
                  (line _ refl, (tt, tt)),
                  (
                    (line _ refl, free_shown-HasKeys view.overview),
                    (
                      said _ refl,
                      Speaks-append HasLine (for_each items (usage_line floats)) _
                          (Speaks-for_each HasLine items (usage_line floats)
                            (usage_line-IsSpoken floats))
                          (Speaks-when HasLine (length items == 0 && not view.loading) _
                            (said _ refl, tt)),
                    ),
                  ),
                ),
              ),
            ),
          ),
        ),
      )

account_heading-IsSpoken : (user : Option User) → IsSpoken (account_heading user)
unfolding account_heading kind_at
account_heading-IsSpoken none = (said _ refl, tt)
account_heading-IsSpoken (some user) = (said _ refl, ((tt, tt), ((tt, tt), tt)))

pub account_screen-IsSpoken :
    (user : Option User) (view : AccountView) → IsSpoken (account_screen user view)
unfolding account_screen kind_at
account_screen-IsSpoken user view =
    Speaks-append HasLine (alerts_of view.error view.notice _ _) _
      (alerts_of-IsSpoken view.error view.notice _ _)
      (Speaks-append HasLine (account_heading user) _ (account_heading-IsSpoken user)
        (said _ refl, (said _ refl, (said _ refl, tt))))

pub login_screen-IsSpoken :
    (session : Session) (view : LoginView) (username password : Text)
    → IsSpoken (login_screen session view username password)
unfolding login_screen kind_at
login_screen-IsSpoken session view username password = (
  (tt, tt),
  (
    (either _ _ session.setup_required (line _ refl) (line _ refl), tt),
    (
      said _ refl,
      Speaks-append HasLine (when (is_truthy view.error) _) _
          (Speaks-when HasLine (is_truthy view.error) _ ((tt, tt), tt))
          (
            said _ refl,
            (
              said _ refl,
              ((either _ _ session.setup_required (line _ refl) (line _ refl), tt), tt),
            ),
          ),
    ),
  ),
)
