-- ===== src/Admin.antt =====
-- The views of the administration and of the account (web/src/views): what they share, and the modules
-- for each.
pub mod Forms
pub mod Users
pub mod LastAdmin
pub mod UserForm
pub mod Account
pub mod Overview
pub mod Fields
pub mod Settings
mod Tests
use easy_webdav.Prelude.{Text, String, some}
use easy_webdav.Api.Problem.{Problem, api_error, other}
use easy_webdav.Messages.ErrorCodes.{error_key}

-- `problem instanceof ApiError ? t(errorKey(problem.code)) : String(problem)`, as the views write it.
unfoldable pub shown_error : (String → Text) → Problem → Text
shown_error t (api_error problem) = t (error_key (some problem.code))
shown_error t (other text) = text
