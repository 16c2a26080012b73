-- ===== src/Connect/Tests.antt =====
-- web/src/connect.test.ts, and the theorems at concrete inputs.
use easy_webdav.Prelude.{List, ◌∷◌, String}
use easy_webdav.Screen.{Offers, Offers-at, pressed}
use easy_webdav.Connect.Reference.{closed, base_of_segments, normalize_base-segments}
use easy_webdav.Connect.Info.{ConnectInfo}
use easy_webdav.Connect.Dialog.{
  CopyState, write_text, has_taken, copy_text, run_out, copies, rclone, tabs, snippets, steps_key,
  step_list, pane_shown, connect_dialog,
}
use easy_webdav.Connect.Dialog.Copying.{marked, marked-copy_text}
use easy_webdav.Prelude.{
  is_space, trim_start, trim_end, trim, ◌≡◌, refl, true, false, [], none, Text, units, text_eq,
  if◌then◌else◌,
}
use easy_webdav.Connect.Base.{collapse, with_leading, with_trailing, normalize_base}
use easy_webdav.Connect.Info.{
  ConnectInput, ParsedUrl, strip_slashes, dav_url_of, port_of, backslashes, windows_path_of,
  insecure_of, build_connect_info,
}

without_slashes : normalize_base (units "files") ≡ units "/files/"
unfolding is_space trim_start trim_end trim collapse with_leading with_trailing normalize_base
without_slashes = refl

doubled : normalize_base (units " //files///panel ") ≡ units "/files/panel/"
unfolding is_space trim_start trim_end trim collapse with_leading with_trailing normalize_base
doubled = refl

-- The two addresses of the tests, taken apart.
abbrev parse : Text → ParsedUrl
parse url =
    if text_eq url (units "https://nas:8443/dav/")
    then record { secure = true; hostname = units "nas"; port = units "8443" }
    else record { secure = false; hostname = units "host"; port = [] }

abbrev root : ConnectInput
root = record {
  origin = units "https://nas:8443/";
  base_url = units "/";
  username = units "alice";
  insecure = none;
}

abbrev below : ConnectInput
below = record {
  origin = units "http://host";
  base_url = units "files";
  username = units "carol";
  insecure = none;
}

root_url : (build_connect_info parse root).dav_url ≡ units "https://nas:8443/dav/"
unfolding build_connect_info dav_url_of strip_slashes is_space trim_start trim_end trim collapse
    with_leading with_trailing normalize_base
root_url = refl

root_path : (build_connect_info parse root).windows_path ≡ units "\\\\nas@SSL@8443\\dav"
unfolding build_connect_info dav_url_of strip_slashes is_space trim_start trim_end trim collapse
    with_leading with_trailing normalize_base windows_path_of backslashes port_of
root_path = refl

below_path : (build_connect_info parse below).windows_path ≡ units "\\\\host@80\\files\\dav"
unfolding build_connect_info dav_url_of strip_slashes is_space trim_start trim_end trim collapse
    with_leading with_trailing normalize_base windows_path_of backslashes port_of
below_path = refl

below_insecure : (build_connect_info parse below).insecure ≡ true
unfolding build_connect_info dav_url_of strip_slashes is_space trim_start trim_end trim collapse
    with_leading with_trailing normalize_base insecure_of
below_insecure = refl

normalize_base-segments_example :
    normalize_base (units " //files///panel ") ≡ base_of_segments (units " //files///panel ")
normalize_base-segments_example = normalize_base-segments (units " //files///panel ")

segments_closed : base_of_segments (units " //files///panel ") ≡ units "/files/panel/"
unfolding base_of_segments closed is_space trim_start trim_end trim
segments_closed = refl

abbrev shown : ConnectInfo
shown = build_connect_info parse root

abbrev steps : String → List Text
steps key = units "one" ∷ units "two" ∷ []

abbrev uncopied : CopyState
uncopied = record { copied = ""; timers = 0 }

-- The button of the rclone command that creates the remote.
rclone_offered :
    Offers
      (connect_dialog steps shown uncopied rclone)
      (copies "rclone" shown.rclone_create_command)
unfolding connect_dialog tabs pane_shown step_list steps_key snippets build_connect_info insecure_of
    dav_url_of strip_slashes normalize_base with_trailing collapse with_leading trim trim_end
    trim_start is_space
rclone_offered = Offers-at _ 13 _ _ refl pressed

marked-copy_text_example :
    marked "connectCopied"
      (connect_dialog steps shown (copy_text "rclone" (write_text true) uncopied) rclone)
    ≡ (if has_taken (write_text true) then shown.rclone_create_command ∷ [] else [])
marked-copy_text_example =
    marked-copy_text steps shown uncopied rclone "rclone" shown.rclone_create_command
      (write_text true) rclone_offered

-- The timer of an earlier copy empties the mark of a later one.
early :
    (run_out
      (copy_text "verify" (write_text true) (copy_text "rclone" (write_text true) uncopied))).copied
    ≡ ""
unfolding run_out
early = refl
