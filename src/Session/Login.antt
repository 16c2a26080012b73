-- ===== src/Session/Login.antt =====
-- web/src/views/LoginView.vue: signing in, and the page that follows.
use easy_webdav.Prelude.{
  ◌≡◌, refl, ap, ◌∙◌, Bool, true, false, ◌&&◌, not, [], Option, none, some, Text, String,
  if◌then◌else◌,
}
use easy_webdav.Api.Problem.{Reply, ok, err}
use easy_webdav.Api.Types.{User, Me}
use easy_webdav.Admin.{shown_error}
use easy_webdav.Session.Store.{
  Session, BootstrapAnswers, bootstrap, is_admin, user_is_admin, sign_in, sign_up,
}
use easy_webdav.Session.Guard.{
  Location, is_public, section_of, is_admin_section, proceed, to_login, to_files, guard,
  after_login,
}
use easy_webdav.Session.Laws.{user_of, bootstrap_lem, after_login-guard}

pub record LoginView : Type 0 where
  pub error : Text
  pub busy : Bool

-- What a submission leaves: the store, the view, and the address that is pushed, if one is.
pub record Submitted : Type 0 where
  pub session : Session
  pub view : LoginView
  pub pushed : Option Text

if_same {ℓ} : {A : Type ℓ} (b : Bool) (x : A) → (if b then x else x) ≡ x
if_same true x = refl
if_same false x = refl

pub guard-signed_in :
    (session : Session) (to : Location) (user : User)
    → session.user ≡ some user
    → is_public to.name ≡ false
    → guard session to ≡ (
        if is_admin_section (section_of to.path) && not (user_is_admin (some user))
        then to_files
        else proceed)
unfolding guard is_admin
guard-signed_in session to user e page =
    rw (e, guard, page)
      (ap
        (λ found.
          if is_admin_section (section_of to.path) && not (user_is_admin found)
          then to_files
          else proceed)
        e)

module _ (t : String → Text) where
  -- The end of the `try`, and its `catch`. The router takes every address that is pushed.
  unfoldable pub settle_login : Option Text → Session × Reply (Unit {0}) → Submitted
  settle_login redirect (session, ok _) = record {
    session = session;
    view = record { error = []; busy = false };
    pushed = some (after_login redirect);
  }
  settle_login redirect (session, err problem) = record {
    session = session;
    view = record { error = shown_error t problem; busy = false };
    pushed = none;
  }

  unfoldable pub submit_login :
      Option Text → Reply (Unit {0}) → BootstrapAnswers → Session → Submitted
  submit_login redirect done answers session = settle_login redirect (
      if session.setup_required then sign_up done answers session else sign_in done answers session)

  resolved : BootstrapAnswers → Session → Text → Submitted
  resolved answers session address = record {
    session = bootstrap answers session;
    view = record { error = []; busy = false };
    pushed = some address;
  }

  submit_login-ok :
      (redirect : Option Text) (answers : BootstrapAnswers) (session : Session)
      → submit_login redirect (ok tt) answers session
        ≡ resolved answers session (after_login redirect)
  unfolding submit_login settle_login sign_in sign_up resolved
  submit_login-ok redirect answers session =
      ap (settle_login redirect) (if_same session.setup_required (bootstrap answers session, ok tt))

  -- Signing in on the page that the guard has sent a visitor to leads back to the page that was asked
  -- for, and there the guard lets the user in, unless it is one of the administration's and the user is
  -- no administrator.
  pub submit_login-guard :
      (visitor session : Session) (to : Location) (redirect : Option Text)
      (answers : BootstrapAnswers) (me : Me)
      → guard visitor to ≡ to_login redirect
      → is_public to.name ≡ false
      → answers.me ≡ ok me
      → let after = submit_login redirect (ok tt) answers session in
        (after.pushed ≡ some to.full_path)
        × (guard after.session to ≡ (
            if is_admin_section (section_of to.path) && not (user_is_admin (some me.user))
            then to_files
            else proceed))
  unfolding resolved
  submit_login-guard visitor session to redirect answers me kept page known =
      let after = submit_login-ok redirect answers session in
      let user = (bootstrap_lem answers session).1 ∙ ap user_of known in
      (
        ap (λ end. end.pushed) after ∙ ap some (after_login-guard visitor to redirect kept),
        ap (λ end. guard end.session to) after
            ∙ guard-signed_in (bootstrap answers session) to me.user user page,
      )
