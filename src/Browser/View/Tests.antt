-- ===== src/Browser/View/Tests.antt =====
-- The view (web/src/views/FileBrowserView.vue) at concrete inputs.
use Prim.Native.Nat.{Ordering}
use easy_webdav.Prelude.{◌≡◌, refl, true, false, [], ◌∷◌, none, some, units, String, All}
use easy_webdav.Floats.FixedPoint.{thousandths}
use easy_webdav.Api.Problem.{ok, err, other}
use easy_webdav.Api.Types.{Entry, User}
use easy_webdav.Screen.{Offers, Offers-at, pressed}
use easy_webdav.Browser.Path.{parts, segments, current_path, join, can_write}
use easy_webdav.Browser.Listing.{rows, sort, insert, is_shown}
use easy_webdav.Browser.Drop.{Transfer, on_drop, dropped_items, pick_listed, on_pick}
use easy_webdav.Browser.Panel.{
  reload, browse, begin_browse, finish_browse, load_usage, UsageAnswers,
}
use easy_webdav.Browser.Panel.Dialogs.{delete_file, delete_request, name_of, prompt_delete}
use easy_webdav.Browser.Refs.{Visit, Browser, may_write, place_of, at_route, Route, route_user}
use easy_webdav.Browser.View.{
  acts, press, drop_files, new_browser, ask_delete, do_delete, start_reload, follow_route,
  pick_files, reloads_for,
}
use easy_webdav.Browser.View.Template.{
  screen, alerts, heading, usage_card, crumbs_from, toolbar, list_head, row, row_buttons, listing,
  dialogs_shown,
}
use easy_webdav.Browser.View.Steps.{
  Answer, reloaded, receive, presses, receives, Reach, mounted, moves, navigates,
}
use easy_webdav.Browser.View.Reader.{OnlyReads}
use easy_webdav.Browser.View.Targets.{IsHitting, Brings}
use easy_webdav.Browser.View.Targets.Runs.{Reach-IsHitting, Anywhere}

abbrev account : String → User
account permission = record {
  id = 7;
  username = units "eve";
  role = "user";
  root_dir = units "/data";
  permission = permission;
  quota = 0;
  disabled = false;
}

abbrev in_music : String → Visit
in_music permission = record {
  address = parts (units "music" ∷ []);
  user_id = [];
  user = some (account permission);
  admin = false;
  base = units "/";
  encoders = record { component = λ s. s; form = λ s. s };
  platform = record { collate = λ a b. Ordering.eq; time = λ s. none; lower = λ s. s };
  floats = thousandths;
  t = record { plain = λ key. units key; filled = λ key value. units key };
  date = λ s. s;
}

abbrev song : Entry
song = record { name = units "a.mp3"; directory = false; size = 5; modified = [] }

abbrev usage : UsageAnswers
usage = record { overview = err (other []); mine = ok (record { used = 3; quota = 0 }) }

abbrev listed : Answer
listed = reloaded (ok (song ∷ [])) usage

abbrev start : String → Browser
start permission = (start_reload (new_browser (in_music permission) false)).0

abbrev in_place : Route
in_place = record { name = units "files"; user_param = []; path_match = parts (units "music" ∷ []) }

abbrev elsewhere : Route
elsewhere = record {
  name = units "files";
  user_param = [];
  path_match = parts (units "books" ∷ []);
}

abbrev in_books : String → Visit
in_books permission = at_route elsewhere (in_music permission)

abbrev shown : String → Browser
shown permission = receive (at_route in_place (in_music permission)) listed (start permission)

-- The server lists the song and nothing else.
abbrev Song : Entry → Type 0
Song entry = entry ≡ song

listed-Brings : Brings Song listed
listed-Brings = (refl, tt)

abbrev followed : Browser → Browser
followed b = (follow_route elsewhere.name b).0

-- A reader drops a file.
abbrev dropped : Transfer
dropped = record {
  items = none;
  files =
      record { file = record { name = units "b.txt"; size = 3 }; webkit_relative_path = [] } ∷ [];
}

-- The drop of a reader starts the upload, and so does the choice at an input.
false-true : true ≡ false → ⊥
false-true e = cc

dropped_sent : OnlyReads (drop_files (in_music "read") dropped (shown "read")).1 → ⊥
unfolding drop_files on_drop dropped_items pick_listed
dropped_sent h = absurd (false-true h.0)

picked_sent : OnlyReads (pick_files (in_music "read") dropped.files (shown "read")).1 → ⊥
unfolding pick_files on_pick pick_listed
picked_sent h = absurd (false-true h.0)

-- The button that deletes the song, a navigation, and then the button of the dialog.
abbrev asking : Browser
asking = (press (in_music "readwrite") (ask_delete song) (shown "readwrite")).0

ask_offered : Offers (screen (in_music "readwrite") (shown "readwrite")) (ask_delete song)
unfolding screen alerts heading usage_card crumbs_from toolbar listing list_head row row_buttons
    receive reload browse begin_browse finish_browse load_usage place_of start_reload new_browser
    may_write can_write segments rows sort insert is_shown press prompt_delete dialogs_shown
    at_route route_user
ask_offered = Offers-at _ 28 _ _ refl pressed

delete_offered : Offers (screen (in_books "readwrite") (followed asking)) do_delete
unfolding screen alerts heading usage_card crumbs_from toolbar listing list_head row row_buttons
    receive reload browse begin_browse finish_browse load_usage place_of start_reload new_browser
    may_write can_write segments rows sort insert is_shown press prompt_delete dialogs_shown
    at_route route_user follow_route reloads_for
delete_offered = Offers-at _ 34 _ _ refl pressed

asking_reached : Reach (Brings Song) Anywhere (in_books "readwrite") (followed asking)
asking_reached =
    moves
      (moves
        (moves (mounted (in_music "readwrite") false tt) (receives in_place listed listed-Brings))
        (presses ask_offered))
      (navigates elsewhere tt)

Reach-IsHitting_example :
    All
      (IsHitting Song (in_books "readwrite"))
      (press (in_books "readwrite") do_delete (followed asking)).1
Reach-IsHitting_example = Reach-IsHitting Song asking_reached (presses delete_offered)

-- The song was listed in one directory, and is deleted in the other.
deletes :
    (press (in_books "readwrite") do_delete (followed asking)).1
    ≡ acts (delete_file (units "books/a.mp3")) ∷ []
unfolding press delete_request join current_path segments name_of prompt_delete follow_route
    start_reload begin_browse reloads_for at_route receive
deletes = refl
