-- ===== src/Browser/Panel.antt =====
-- web/src/views/FileBrowserView.vue, lines 18-33 and 86-146: what the panel shows, and how it is loaded.
-- `t` is the translation of vue-i18n; the last function fills in one value.
pub mod Dialogs
pub mod Uploads
pub mod Calls
pub mod Laws
pub mod Failures
use easy_webdav.Prelude.{
  ℕ, ◌≡◌, Bool, true, false, ◌&&◌, List, [], ◌∷◌, ◌++◌, Option, none, some, Text, units, String,
  text_eq, str_eq, decimal, is_truthy, ltb, if◌then◌else◌,
}
use easy_webdav.Api.Problem.{ApiError, Problem, api_error, other, Reply, ok, err}
use easy_webdav.Api.Types.{Entry, User, UserUsage, UsageOverview}
use easy_webdav.Messages.ErrorCodes.{error_key}
use easy_webdav.Format.Size.{format_size}
use easy_webdav.Upload.Session.{UploadTask}

pub record Translator : Type 0 where
  pub plain : String → Text
  pub filled : String → Text → Text

-- `{ used, quota }`.
pub record Used : Type 0 where
  pub used : ℕ
  pub quota : ℕ

-- The refs that the requests below write to.
pub record Panel : Type 0 where
  pub entries : List Entry
  pub loading : Bool
  pub error : Text
  pub notice : Text
  pub selected : List Text
  pub usage : Used
  pub target_user : Option User
  pub upload_tasks : List UploadTask

-- Where the address leads, and whether the signed-in user is an administrator.
pub record Place : Type 0 where
  pub path : Text
  pub user_id : Text
  pub admin : Bool

-- `problem.details?.remaining ?? 0`.
unfoldable pub detail : String → List (String × ℕ) → ℕ
detail key [] = 0
detail key ((k, value) ∷ rest) = if str_eq k key then value else detail key rest

module _ (t : Translator) where
  unfoldable pub api_error_text : ApiError → Text
  api_error_text problem =
      let remaining = detail "remaining" problem.details in
      if str_eq problem.code "QUOTA_EXCEEDED"
      then (if ltb 0 remaining
          then t.plain "errors.quotaExceeded"
            ++ units " · "
            ++ t.filled "quotaRemaining" (format_size remaining)
          else t.plain "errors.quotaExceeded")
      else t.plain (error_key (some problem.code))

  unfoldable pub problem_text : Problem → Text
  problem_text (api_error problem) = api_error_text problem
  problem_text (other text) = text

  unfoldable pub fail : Problem → Panel → Panel
  fail problem panel = record panel { notice = []; error = problem_text problem }

unfoldable pub succeed : Text → Panel → Panel
succeed message panel = record panel { error = []; notice = message }

-- `browse` up to its request, and from the answer on.
unfoldable pub begin_browse : Panel → Panel
begin_browse panel = record panel { loading = true }

-- `overview.users.find((item) => String(item.user.id) === userId.value)`.
unfoldable pub usage_of : Text → List UserUsage → Option UserUsage
usage_of user_id [] = none
usage_of user_id (item ∷ users) =
    if text_eq (decimal item.user.id) user_id then some item else usage_of user_id users

abbrev no_usage : Used
no_usage = record { used = 0; quota = 0 }

unfoldable pub apply_overview : Option UserUsage → Panel → Panel
apply_overview none panel = record panel { target_user = none; usage = no_usage }
apply_overview (some item) panel = record panel {
  target_user = some item.user;
  usage = record { used = item.used; quota = item.user.quota };
}

-- The answers to `api.usageOverview` and `api.usageMe`.
pub record UsageAnswers : Type 0 where
  pub overview : Reply UsageOverview
  pub mine : Reply Used

unfoldable pub load_usage : Place → UsageAnswers → Panel → Panel
load_usage place answers panel =
    if is_truthy place.user_id && place.admin
    then elim answers.overview [
      | ok overview ↦ apply_overview (usage_of place.user_id overview.users) panel
      | err _ ↦ record panel { usage = no_usage }
    ]
    else elim answers.mine [
      | ok mine ↦ record panel { usage = mine }
      | err _ ↦ record panel { usage = no_usage }
    ]

module _ (t : Translator) where
  unfoldable pub finish_browse : Reply (List Entry) → Panel → Panel
  finish_browse (ok entries) panel = record panel {
    entries = entries;
    selected = [];
    error = [];
    loading = false;
  }
  finish_browse (err problem) panel = record (fail t problem panel) { loading = false }

  unfoldable pub browse : Reply (List Entry) → Panel → Panel
  browse reply panel = finish_browse reply (begin_browse panel)

  -- `Promise.all([browse(), loadUsage()])`: the two write to different refs.
  unfoldable pub reload : Place → Reply (List Entry) → UsageAnswers → Panel → Panel
  reload place listing answers panel = load_usage place answers (browse listing panel)
