-- ===== src/Admin/Users/Calls.antt =====
-- web/src/views/UsersView.vue, lines 113-166: the calls of the view's requests. The order of the fields is
-- no part of a JSON object.
use easy_webdav.Prelude.{◌≡◌, refl, true, [], ◌∷◌, ◌++◌, Option, none, some, Text, units, String}
use easy_webdav.Api.Calls.{ApiCall, Fields, Scalar}
use easy_webdav.Api.Calls.Laws.{changes}
use easy_webdav.Admin.Forms.{
  UserBody, UserRequest, create_user, update_user, delete_user, reset_password,
}

-- A field that is left out where there is no value.
abbrev field_of : String → Option Text → Fields
field_of key none = []
field_of key (some value) = (key, Scalar.text value) ∷ []

unfoldable pub body_fields : UserBody → Fields
body_fields body =
    ("username", Scalar.text body.username)
    ∷ ("permission", Scalar.text (units body.permission))
    ∷ ("quota", Scalar.number body.quota)
    ∷ ("disabled", Scalar.flag body.disabled)
    ∷ (field_of "root_dir" body.root_dir ++ field_of "password" body.password)

unfoldable pub user_call : UserRequest → ApiCall
user_call (create_user body) = ApiCall.create_user (body_fields body)
user_call (update_user id body) = ApiCall.update_user id (body_fields body)
user_call (delete_user id) = ApiCall.delete_user id
user_call (reset_password id password) = ApiCall.reset_password id password

-- Each of them is a call that changes something.
pub user_call-changes : (request : UserRequest) → changes (user_call request) ≡ true
unfolding user_call
user_call-changes (create_user body) = refl
user_call-changes (update_user id body) = refl
user_call-changes (delete_user id) = refl
user_call-changes (reset_password id password) = refl
