-- ===== src/Shell/Texts/Users.antt =====
-- The messages of web/src/views/UsersView.vue.
use easy_webdav.Prelude.{refl, not, ◌==◌, str_eq}
use easy_webdav.Floats.{Floats}
use easy_webdav.Api.Types.{User}
use easy_webdav.Messages.Catalogue.{kind_at}
use easy_webdav.Screen.{when, for_each}
use easy_webdav.Screen.Labels.{Speaks-append, Speaks-when, Speaks-for_each}
use easy_webdav.Admin.Fields.{alerts_of, permission_options, quota_fields}
use easy_webdav.Admin.Users.{UsersView, used_for}
use easy_webdav.Admin.Users.Template.{
  user_usage, user_buttons, user_row, columns, form_dialog, password_shown, users_heading,
  users_screen, is_editing,
}
use easy_webdav.Shell.Texts.Line.{HasLine, IsSpoken, line, either, either_part, said}
use easy_webdav.Shell.Texts.Fields.{alerts_of-IsSpoken, quota_fields-IsSpoken}

user_row-IsSpoken :
    (floats : Floats) (view : UsersView) (user : User) → IsSpoken (user_row floats view user)
unfolding user_row user_usage user_buttons kind_at
user_row-IsSpoken floats view user = (
  (tt, tt),
  (
    (tt, tt),
    (
      (either _ _ (str_eq user.permission "read") (line _ refl) (line _ refl), tt),
      (
        (either _ _ user.disabled (line _ refl) (line _ refl), tt),
        Speaks-append HasLine (user_usage floats (used_for view.usage user) user) _
            (
              (tt, (either_part _ _ (not (user.quota == 0)) tt (line _ refl), (tt, tt))),
              Speaks-when HasLine (not (user.quota == 0)) _ (tt, tt),
            )
            (
              said _ refl,
              (
                said _ refl,
                (
                  said _ refl,
                  ((either _ _ user.disabled (line _ refl) (line _ refl), tt), (said _ refl, tt)),
                ),
              ),
            ),
      ),
    ),
  ),
)

form_dialog-IsSpoken : (view : UsersView) → IsSpoken (form_dialog view)
unfolding form_dialog permission_options kind_at
form_dialog-IsSpoken view = Speaks-when HasLine view.dialog _ (
  (either _ _ (is_editing view) (line _ refl) (line _ refl), tt),
  (
    tt,
    (
      said _ refl,
      Speaks-append HasLine (when (not (is_editing view)) _) _
          (Speaks-when HasLine (not (is_editing view)) _ (said _ refl, tt))
          (
            said _ refl,
            (
              (said _ refl, (said _ refl, (said _ refl, tt))),
              Speaks-append HasLine
                  (quota_fields "quota" view.form.quota_amount view.form.quota_unit _ _) _
                  (quota_fields-IsSpoken "quota" view.form.quota_amount view.form.quota_unit _ _
                    (line _ refl))
                  (Speaks-append HasLine (when (is_editing view) _) _
                    (Speaks-when HasLine (is_editing view) _
                      ((said _ refl, (said _ refl, (said _ refl, tt))), tt))
                    (said _ refl, (said _ refl, tt))),
            ),
          ),
    ),
  ),
)

pub users_screen-IsSpoken :
    (floats : Floats) (view : UsersView) → IsSpoken (users_screen floats view)
unfolding users_screen users_heading columns password_shown kind_at
users_screen-IsSpoken floats view =
    Speaks-append HasLine (alerts_of view.error view.notice _ _) _
      (alerts_of-IsSpoken view.error view.notice _ _)
      (
        said _ refl,
        (
          said _ refl,
          (
            (line _ refl, (tt, tt)),
            (
              said _ refl,
              (
                said _ refl,
                (
                  said _ refl,
                  (
                    said _ refl,
                    (
                      said _ refl,
                      (
                        said _ refl,
                        (
                          said _ refl,
                          Speaks-append HasLine (for_each view.users (user_row floats view)) _
                              (Speaks-for_each HasLine view.users (user_row floats view)
                                (user_row-IsSpoken floats view))
                              (Speaks-append HasLine (form_dialog view) _
                                (form_dialog-IsSpoken view)
                                (Speaks-when HasLine view.password_dialog _ (
                                  said _ refl,
                                  (tt, (said _ refl, (tt, (said _ refl, (said _ refl, tt))))),
                                ))),
                        ),
                      ),
                    ),
                  ),
                ),
              ),
            ),
          ),
        ),
      )
