-- ===== src/Connect/Info.antt =====
-- web/src/connect.ts, lines 22-49: what the connection help shows. The platform's `URL` takes an
-- address apart.
use easy_webdav.Prelude.{
  Bool, not, [], ◌∷◌, ◌++◌, Option, none, some, Text, units, or_else, ◌==◌, map, if◌then◌else◌,
}
use easy_webdav.Connect.Base.{normalize_base}

pub record ConnectInfo : Type 0 where
  pub origin : Text
  pub dav_url : Text
  pub insecure : Bool
  pub username : Text
  pub windows_path : Text
  pub davfs_command : Text
  pub rclone_create_command : Text
  pub rclone_verify_command : Text
  pub net_use_command : Text

-- What is read of a `URL`: whether its protocol is `https:`, its host and its port, empty if it is the
-- protocol's own.
pub record ParsedUrl : Type 0 where
  pub secure : Bool
  pub hostname : Text
  pub port : Text

pub record ConnectInput : Type 0 where
  pub origin : Text
  pub base_url : Text
  pub username : Text
  pub insecure : Option Bool

-- `replace(/\/+$/, '')`.
unfoldable pub strip_slashes : Text → Text
strip_slashes [] = []
strip_slashes (c ∷ s) =
    let rest = strip_slashes s in
    elim rest [ [] ↦ if c == b'/' then [] else c ∷ [] | d ∷ more ↦ c ∷ d ∷ more ]

unfoldable pub dav_url_of : ConnectInput → Text
dav_url_of input = strip_slashes input.origin ++ normalize_base input.base_url ++ units "dav/"

unfoldable pub port_of : ParsedUrl → Text
port_of parsed = or_else parsed.port (if parsed.secure then units "443" else units "80")

-- `replace(/\//g, '\\')`.
unfoldable pub backslashes : Text → Text
backslashes s = map (λ c. if c == b'/' then b'\\' else c) s

unfoldable pub windows_path_of : ParsedUrl → Text → Text
windows_path_of parsed base =
    let share = backslashes (base ++ units "dav") in
    if parsed.secure
    then units "\\\\" ++ parsed.hostname ++ units "@SSL@" ++ port_of parsed ++ share
    else units "\\\\" ++ parsed.hostname ++ units "@" ++ port_of parsed ++ share

unfoldable pub insecure_of : Option Bool → ParsedUrl → Bool
insecure_of none parsed = not parsed.secure
insecure_of (some insecure) parsed = insecure

unfoldable pub build_connect_info : (Text → ParsedUrl) → ConnectInput → ConnectInfo
build_connect_info parse input =
    let url = dav_url_of input in
    let parsed = parse url in
    record {
      origin = strip_slashes input.origin;
      dav_url = url;
      insecure = insecure_of input.insecure parsed;
      username = input.username;
      windows_path = windows_path_of parsed (normalize_base input.base_url);
      davfs_command =
          units "sudo mount -t davfs "
          ++ url
          ++ units " /mnt/"
          ++ parsed.hostname
          ++ units " -o uid=$(id -u)";
      rclone_create_command =
          units "rclone config create easy-webdav webdav url="
          ++ url
          ++ units " vendor=other user="
          ++ input.username;
      rclone_verify_command = units "rclone lsd easy-webdav:";
      net_use_command =
          units "net use Z: " ++ url ++ units " /user:" ++ input.username ++ units " *";
    }
