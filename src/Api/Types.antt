-- ===== src/Api/Types.antt =====
-- web/src/api.ts, lines 47-84: what the endpoints answer with.
use easy_webdav.Prelude.{[], ◌∷◌, ℕ, Bool, List, Option, String, Text, str_eq, if◌then◌else◌}

pub record User : Type 0 where
  pub id : ℕ
  pub username : Text
  pub role : String
  pub root_dir : Text
  pub permission : String
  pub quota : ℕ
  pub disabled : Bool

pub record Entry : Type 0 where
  pub name : Text
  pub directory : Bool
  pub size : ℕ
  pub modified : Text

pub record UserUsage : Type 0 where
  pub user : User
  pub used : ℕ

-- `UsageOverview`, without the directory's name: the views show the free space only.
pub record UsageOverview : Type 0 where
  pub users : List UserUsage
  pub free : Option ℕ

-- The answers to `api.me` and `api.setupStatus`.
pub record Me : Type 0 where
  pub user : User
  pub insecure : Bool

pub record SetupStatus : Type 0 where
  pub required : Bool
  pub insecure : Bool
  pub site_name : Text

-- `Record<string, string>` as the settings are sent; an absent entry reads as the empty text, which
-- every reader of it treats alike.
abbrev pub Settings : Type 0
Settings = List (String × Text)

unfoldable pub setting : String → Settings → Text
setting key [] = []
setting key ((k, value) ∷ rest) = if str_eq k key then value else setting key rest
