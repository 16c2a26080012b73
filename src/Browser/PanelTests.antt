-- ===== src/Browser/PanelTests.antt =====
-- The panel and the collecting of dropped files (web/src/views/FileBrowserView.vue) at concrete inputs.
use easy_webdav.Prelude.{
  trim, trim_start, trim_end, is_space, ℕ, ◌==◌, ◌≡◌, refl, ◌≢◌, true, false, List, [], ◌∷◌, ◌++◌,
  none, some, Text, units, String, if◌then◌else◌, All, IsSegment, arith,
}
use easy_webdav.Api.Problem.{Problem, api_error, other, ok, err}
use easy_webdav.Api.Types.{Entry}
use easy_webdav.Api.Url.{Encoders, endpoint, with_user}
use easy_webdav.Upload.State.{start_upload, mark_chunk, mark_retry, finish_upload, chunk_count}
use easy_webdav.Upload.Chunks.{chunk_indices}
use easy_webdav.Format.Size.{format_size}
use easy_webdav.Upload.Workers.{
  run_events, step, start_workers, start_worker, initial, accept, reject, all_returned,
}
use easy_webdav.Upload.Session.{
  UploadTask, UploadFile, Handlers, Answers, rename, create_task, run_upload, transfer, restart,
  settle, fail_task,
}
use easy_webdav.Browser.Path.{parts, join, current_path, segments}
use easy_webdav.Browser.Panel.{
  Translator, Panel, Place, UsageAnswers, fail, finish_browse, begin_browse, api_error_text,
  problem_text, detail,
}
use easy_webdav.Browser.Panel.Dialogs.{
  Dialogs, mkdir, rename as rename_entry, move_file, delete_file, prompt_name, prompt_delete,
  prompt_move, delete_request, name_request, move_request, submit_name, ActionAnswers, name_of,
  proposed_name,
}
use easy_webdav.Browser.Panel.Uploads.{upload_all}
use easy_webdav.Browser.Panel.Laws.{browse_late, dialogs_close, of_name}
use easy_webdav.Browser.Panel.Failures.{AllEnd, failures, upload_all_lem}
use easy_webdav.Browser.Drop.{
  FileTree, leaf, node, no_more, child, collect_entry, collect_children, read_entries,
}
use easy_webdav.Browser.Drop.Laws.{leaves, ClashesAs, collect_entry_lem}

abbrev keys : Translator
keys = record { plain = λ key. units key; filled = λ key value. units key ++ value }

abbrev encoders : Encoders
encoders = record { component = λ s. s; form = λ s. s }

abbrev at_music : Place
at_music = record { path = units "music"; user_id = []; admin = false }

abbrev no_answers : UsageAnswers
no_answers = record { overview = err (other []); mine = ok (record { used = 3; quota = 10 }) }

abbrev empty_panel : Panel
empty_panel = record {
  entries = [];
  loading = false;
  error = [];
  notice = units "saved";
  selected = [];
  usage = record { used = 0; quota = 0 };
  target_user = none;
  upload_tasks = [];
}

abbrev full : Problem
full = api_error (record {
  status = 409;
  code = "QUOTA_EXCEEDED";
  details = ("remaining", 2048) ∷ [];
  message = [];
})

-- What is left is shown with the error.
remaining_shown :
    (fail keys full empty_panel).error
    ≡ units "errors.quotaExceeded · quotaRemaining" ++ format_size 2048
unfolding fail problem_text api_error_text detail
remaining_shown = refl

abbrev small : String → UploadTask
small name = create_task (record { name = units name; size = 5 }) (units name) rename

abbrev handlers : ℕ → Handlers
handlers n = record { user_id = []; directory = units "music" }

-- The first upload is refused, the second arrives.
abbrev served : ℕ → Answers
served n = record {
  session = if n == 0 then err full else ok (units "s");
  chunks = (0, ok tt) ∷ [];
  completion = ok tt;
}

both_end : AllEnd keys encoders (units "/") handlers served 0 (small "a" ∷ small "b" ∷ [])
unfolding run_upload transfer step run_events start_workers start_worker initial accept reject
    all_returned settle fail_task restart start_upload mark_chunk mark_retry finish_upload
    create_task chunk_indices chunk_count endpoint with_user
both_end = (λ e. cc, (λ e. cc, tt))

-- The refusal is shown nowhere once the listing has come.
upload_all_lem_example :
    let after =
      upload_all keys encoders
        (units "/")
        handlers
        served
        at_music
        (ok [])
        no_answers
        (small "a" ∷ small "b" ∷ [])
        empty_panel in
    let count = failures keys encoders (units "/") handlers served 0 (small "a" ∷ small "b" ∷ []) in
    (after.notice ≡ (if count == 0 then units "uploadComplete" else []))
    × (after.error ≡ (if count == 0 then [] else []))
upload_all_lem_example =
    upload_all_lem keys encoders (units "/") handlers served at_music (ok []) no_answers (small "a")
      (small "b" ∷ []) empty_panel both_end

abbrev file : String → Entry
file name = record { name = units name; directory = false; size = 1; modified = [] }

abbrev closed : Dialogs
closed = record {
  name_modal = false;
  name_action = mkdir;
  name_value = [];
  name_target = none;
  move_modal = false;
  move_value = [];
  move_target = none;
  delete_modal = false;
  delete_target = none;
}

abbrev music : List Text
music = units "music" ∷ []

abbrev photos : List Text
photos = units "photos" ∷ []

music-All : All IsSegment music
music-All = ground arith

photos-All : All IsSegment photos
photos-All = ground arith

song-IsSegment : IsSegment (units "song")
song-IsSegment = ground arith

browse_late_example :
    let late =
      finish_browse keys
        (ok (file "song" ∷ []))
        (finish_browse keys (ok (file "cat" ∷ [])) (begin_browse (begin_browse empty_panel))) in
    (late.entries ≡ file "song" ∷ [])
    × (late.loading ≡ false)
    × (late.error ≡ [])
    × (delete_request keys (parts photos) (prompt_delete (file "song") closed)
        ≢ delete_file (join (parts music) (units "song")))
browse_late_example =
    browse_late keys music photos (file "song") [] (file "cat" ∷ []) closed empty_panel music-All
      photos-All song-IsSegment (λ e. cc)

-- All three dialogs are open, on a file that is to be renamed and moved.
abbrev open_dialogs : Dialogs
open_dialogs = record {
  name_modal = true;
  name_action = rename_entry;
  name_value = units "tune";
  name_target = some (file "song");
  move_modal = true;
  move_value = units "tune";
  move_target = some (file "song");
  delete_modal = true;
  delete_target = some (file "song");
}

prompted :
    prompt_move keys
      (parts music)
      (file "song")
      (prompt_name rename_entry (some (file "song")) closed)
    ≡ record open_dialogs {
      name_value = units "song";
      move_value = units "music/song";
      delete_modal = false;
      delete_target = none;
    }
unfolding prompt_move prompt_name proposed_name name_of join current_path segments
prompted = refl

abbrev refused : ActionAnswers
refused = record { done = err full; listing = ok []; usage = no_answers }

-- Only the dialog for a name is open.
abbrev renaming : Dialogs
renaming = record open_dialogs { move_modal = false; delete_modal = false }

renames :
    name_request keys (parts music) renaming
    ≡ some (move_file (units "music/song") (units "music/tune"))
unfolding name_request name_of join current_path segments trim trim_start trim_end is_space
renames = refl

moves :
    move_request keys (parts music) open_dialogs
    ≡ some (move_file (units "music/song") (units "tune"))
unfolding move_request name_of join current_path segments trim trim_start trim_end is_space
moves = refl

dialogs_close_example :
    let after = submit_name keys (parts music) at_music refused renaming empty_panel in
    (after.0.name_modal ≡ true) × (after.1.error ≡ problem_text keys full)
dialogs_close_example =
    dialogs_close keys (parts music) of_name at_music refused renaming empty_panel
      (move_file (units "music/song") (units "music/tune")) renames refl

abbrev blob : String → UploadFile
blob name = record { name = units name; size = 5 }

-- A directory with a file and a directory of another.
abbrev dropped : FileTree
dropped =
    node (units "docs") (
      child (leaf (blob "a"))
        (child (node (units "old") (child (leaf (blob "b")) no_more)) no_more))

collected :
    collect_entry dropped [] []
    ≡ record { file = blob "a"; relative_path = units "docs/a" }
      ∷ record { file = blob "b"; relative_path = units "docs/old/b" }
      ∷ []
unfolding collect_entry collect_children
collected = refl

batches : read_entries {A = ℕ} ((1 ∷ 2 ∷ []) ∷ (3 ∷ []) ∷ [] ∷ (4 ∷ []) ∷ []) ≡ 1 ∷ 2 ∷ 3 ∷ []
unfolding read_entries
batches = refl

collect_entry_lem_example :
    (collect_entry dropped [] [] ≡ leaves dropped [])
    × All (ClashesAs (file "docs" ∷ []) (units "docs")) (collect_entry dropped [] [])
collect_entry_lem_example = collect_entry_lem dropped (file "docs" ∷ []) (ground arith)
