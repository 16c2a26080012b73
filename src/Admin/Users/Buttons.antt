-- ===== src/Admin/Users/Buttons.antt =====
-- What the buttons of the table of the users can do (web/src/views/UsersView.vue).
use easy_webdav.Prelude.{
  ◌≤◌, ◌≡◌, refl, sym, ◌∙◌, ap, Bool, true, false, not, List, [], ◌∷◌, ◌++◌, arith, is_truthy, ◌==◌,
  subst,
}
use easy_webdav.Floats.{Floats}
use easy_webdav.Api.Types.{User}
use easy_webdav.Screen.{Offers, Only, Offers-Only, Only-append, Only-when, when, for_each}
use easy_webdav.Admin.LastAdmin.{is_last_admin_lem}
use easy_webdav.Admin.Fields.{alerts_of, permission_options, quota_fields, quota_units}
use easy_webdav.Admin.Users.{UsersView, is_last_admin, active_admins, used_for}
use easy_webdav.Admin.Users.Template.{
  UsersEvent, toggles, removes, user_usage, user_buttons, user_row, columns, form_dialog,
  password_shown, users_heading, users_screen, is_editing, close_error, close_notice,
}

-- The user stands in the list, and without her an active administrator is left.
abbrev pub LeavesAdmin : List User → User → Type 0
LeavesAdmin users user =
    (before : List User) × (behind : List User) × (users ≡ before ++ user ∷ behind)
    × (1 ≤ active_admins (before ++ behind))

-- What is to hold of the two buttons of a row that disable or delete its user.
abbrev pub KeepsAdmin : List User → UsersEvent → Type 0
KeepsAdmin users (toggles user) = LeavesAdmin users user
KeepsAdmin users (removes user) = LeavesAdmin users user
KeepsAdmin users _ = Unit

move_over :
    (before : List User) (user : User) (behind : List User)
    → before ++ user ∷ behind ≡ (before ++ user ∷ []) ++ behind
move_over [] user behind = refl
move_over (x ∷ before) user behind = ap (λ rest. x ∷ rest) (move_over before user behind)

not_last : (b : Bool) → not b ≡ true → b ≡ false
not_last b h = ground arith

module _ (floats : Floats) (view : UsersView) (some_admin : 1 ≤ active_admins view.users) where
  abbrev P : UsersEvent → Type 0
  P = KeepsAdmin view.users

  leaves :
      (before : List User) (user : User) (behind : List User)
      → view.users ≡ before ++ user ∷ behind
      → not (is_last_admin view.users user) ≡ true
      → LeavesAdmin view.users user
  leaves before user behind e enabled = (
    before,
    behind,
    e,
    (is_last_admin_lem before user behind (subst (λ users. 1 ≤ active_admins users) e some_admin)).0
        (ap (λ users. is_last_admin users user) (sym e)
          ∙ not_last (is_last_admin view.users user) enabled),
  )

  row-Only :
      (before : List User) (user : User) (behind : List User)
      → view.users ≡ before ++ user ∷ behind
      → Only P (user_row floats view user)
  unfolding user_row user_usage user_buttons
  row-Only before user behind e =
      let safe = leaves before user behind e in
      (
        tt,
        (
          tt,
          (
            tt,
            (
              tt,
              Only-append P (user_usage floats (used_for view.usage user) user) _
                  (tt, Only-when P (not (user.quota == 0)) _ (λ _. (tt, tt)))
                  (λ _. tt, (λ _. tt, (λ _. tt, (safe, (safe, tt))))),
            ),
          ),
        ),
      )

  rows-Only :
      (before users : List User)
      → view.users ≡ before ++ users
      → Only P (for_each users (user_row floats view))
  rows-Only before [] e = tt
  rows-Only before (user ∷ users) e =
      Only-append P (user_row floats view user) _ (row-Only before user users e)
        (rows-Only (before ++ user ∷ []) users (e ∙ move_over before user users))

  form_dialog-Only : Only P (form_dialog view)
  unfolding form_dialog permission_options quota_fields quota_units
  form_dialog-Only = Only-when P view.dialog _ (λ _. (
    tt,
    (
      λ _. tt,
      (
        λ _. tt,
        Only-append P (when (not (is_editing view)) _) _
            (Only-when P (not (is_editing view)) _ (λ _. (λ _. tt, tt)))
            (
              λ _. tt,
              (
                (tt, (tt, tt)),
                (
                  λ _. tt,
                  (
                    (tt, (tt, (tt, tt))),
                    (
                      tt,
                      Only-append P (when (is_editing view) _) _
                          (Only-when P (is_editing view) _ (λ _. ((tt, (tt, tt)), tt)))
                          (λ _. tt, (λ _. tt, tt)),
                    ),
                  ),
                ),
              ),
            ),
      ),
    ),
  ))

  users_screen-Only : Only P (users_screen floats view)
  unfolding users_screen alerts_of users_heading columns password_shown
  users_screen-Only =
      Only-append P (alerts_of view.error view.notice close_error close_notice) _
        (Only-append P (when (is_truthy view.error) _) _
          (Only-when P (is_truthy view.error) _ (λ _. (tt, (λ _. tt, tt))))
          (Only-when P (is_truthy view.notice) _ (λ _. (tt, (λ _. tt, tt)))))
        (
          tt,
          (
            tt,
            (
              tt,
              (
                λ _. tt,
                (
                  tt,
                  (
                    tt,
                    (
                      tt,
                      (
                        tt,
                        (
                          tt,
                          (
                            tt,
                            Only-append P (for_each view.users (user_row floats view)) _
                                (rows-Only [] view.users refl)
                                (Only-append P (form_dialog view) _ form_dialog-Only (
                                  Only-when P view.password_dialog _ (λ _.
                                    (tt, (λ _. tt, (tt, (λ _. tt, (λ _. tt, (λ _. tt, tt))))))))),
                          ),
                        ),
                      ),
                    ),
                  ),
                ),
              ),
            ),
          ),
        )

  -- Where a list of users has an active administrator, the buttons of the table that disable or delete a
  -- user can be pressed only for a user without whom an active administrator is left. Of the form for a
  -- user nothing is said.
  pub users_screen-KeepsAdmin :
      (e : UsersEvent) → Offers (users_screen floats view) e → KeepsAdmin view.users e
  users_screen-KeepsAdmin e offered = Offers-Only P offered users_screen-Only
