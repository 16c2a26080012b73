-- ===== src/Browser/Panel/Uploads.antt =====
-- web/src/views/FileBrowserView.vue, lines 251-292: the upload of picked files, one task after another.
-- `onProgress` only makes the view look at the tasks again.
use easy_webdav.Prelude.{ℕ, ◌+◌, Bool, true, false, List, [], ◌∷◌, ◌++◌, Text, ◌==◌, if◌then◌else◌}
use easy_webdav.Api.Problem.{Reply}
use easy_webdav.Api.Types.{Entry}
use easy_webdav.Api.Url.{Encoders}
use easy_webdav.Upload.Session.{
  UploadTask, Handlers, Answers, Outcome, returned_url, thrown, waiting, run_upload,
}
use easy_webdav.Browser.Conflicts.{Picked, ConflictAnswer, planned}
use easy_webdav.Browser.Panel.{Translator, Panel, Place, UsageAnswers, fail, succeed, reload}

-- What the loop keeps: the tasks it has come to as they then are, `failed`, the panel, and whether it
-- awaits an upload.
pub record Loop : Type 0 where
  pub tasks : List UploadTask
  pub failed : ℕ
  pub panel : Panel
  pub is_waiting : Bool

-- The server answers the requests of the task with a number by the answers of that number, and the
-- address that is shown when its turn comes gives its directory and user.
module _ (t : Translator) (encoders : Encoders) (base : Text) (handlers : ℕ → Handlers)
    (served : ℕ → Answers) where
  -- The `try` and `catch` of one task.
  unfoldable pub settle_job : UploadTask × Outcome → Loop → Loop
  settle_job (task, returned_url url) loop = record loop { tasks = loop.tasks ++ task ∷ [] }
  settle_job (task, thrown problem) loop = record loop {
    tasks = loop.tasks ++ task ∷ [];
    failed = loop.failed + 1;
    panel = fail t problem loop.panel;
  }
  settle_job (task, waiting) loop = record loop {
    tasks = loop.tasks ++ task ∷ [];
    is_waiting = true;
  }

  abbrev pub ended : ℕ → UploadTask → UploadTask × Outcome
  ended n task = run_upload encoders base task (handlers n) (served n)

  unfoldable pub run_jobs : ℕ → List UploadTask → Loop → Loop
  run_jobs n [] loop = loop
  run_jobs n (task ∷ tasks) loop =
      let next = settle_job (ended n task) loop in
      let rest = run_jobs (n + 1) tasks next in
      if next.is_waiting then record next { tasks = next.tasks ++ tasks } else rest

  abbrev pub started_loop : Panel → Loop
  started_loop panel = record { tasks = []; failed = 0; panel = panel; is_waiting = false }

  -- `await reload()` and the notice.
  unfoldable pub end_uploads : Place → Reply (List Entry) → UsageAnswers → Loop → Panel
  end_uploads place listing answers loop =
      let reloaded =
        reload t place listing answers (record loop.panel { upload_tasks = loop.tasks }) in
      if loop.failed == 0 then succeed (t.plain "uploadComplete") reloaded else reloaded

  unfoldable pub upload_all :
      Place → Reply (List Entry) → UsageAnswers → List UploadTask → Panel → Panel
  upload_all place listing answers [] panel = panel
  upload_all place listing answers (task ∷ tasks) panel =
      let loop = run_jobs 0 (task ∷ tasks) (started_loop panel) in
      if loop.is_waiting
      then record loop.panel { upload_tasks = loop.tasks }
      else end_uploads place listing answers loop

  unfoldable pub upload_picked :
      (ℕ → ConflictAnswer) → Place → Reply (List Entry) → UsageAnswers → List Picked → Panel → Panel
  upload_picked ask place listing answers picked panel =
      upload_all place listing answers (planned panel.entries ask picked) panel

-- The timer that is set at the end.
unfoldable pub forget_tasks : Panel → Panel
forget_tasks panel = record panel { upload_tasks = [] }
