-- ===== src/Upload/Session.antt =====
-- web/src/uploader.ts, lines 4-92: one upload from its creation to its end. The answers of the server
-- are an argument. `notify` only hands the task on to the caller and is left out.
pub mod Delivery
pub mod Limits
pub mod Lifecycle
pub mod Flicker
use easy_webdav.Prelude.{
  ℕ, min, Bool, true, false, List, [], ◌∷◌, ◌++◌, Option, none, some, Text, units, decimal,
  join_nonempty, if◌then◌else◌, length,
}
use easy_webdav.Api.Problem.{Problem, problem_message, Reply, ok, err}
use easy_webdav.Api.Url.{Encoders, endpoint, with_user}
use easy_webdav.Upload.State.{
  UploadState, UploadStatus, uploading, failed, start_upload, finish_upload, chunk_count,
  upload_concurrency,
}
use easy_webdav.Upload.Chunks.{chunk_indices}
use easy_webdav.Upload.Workers.{Run, Event, run_events, start_workers, initial, all_returned}

pub data ConflictChoice : Type 0 where
  overwrite skip rename : ConflictChoice

pub record UploadFile : Type 0 where
  pub name : Text
  pub size : ℕ

pub record UploadTask : Type 0 where
  pub file : UploadFile
  pub relative_path : Text
  pub conflict : ConflictChoice
  pub state : UploadState
  pub error : Option Text

unfoldable pub create_task : UploadFile → Text → ConflictChoice → UploadTask
create_task file relative_path conflict = record {
  file = file;
  relative_path = relative_path;
  conflict = conflict;
  state = start_upload (chunk_count file.size);
  error = none;
}

-- `userId` and `directory`: an absent one is the empty text, which the code treats alike.
pub record Handlers : Type 0 where
  pub user_id : Text
  pub directory : Text

-- The body of the request that creates the session.
pub record NewUpload : Type 0 where
  pub path : Text
  pub total_size : ℕ
  pub conflict : ConflictChoice

unfoldable pub new_upload : UploadTask → Handlers → NewUpload
new_upload task handlers = record {
  path = join_nonempty (handlers.directory ∷ task.relative_path ∷ []);
  total_size = task.file.size;
  conflict = task.conflict;
}

-- The answers to the three kinds of requests: the session's id, the chunks, the completion.
pub record Answers : Type 0 where
  pub session : Reply Text
  pub chunks : List Event
  pub completion : Reply (Unit {0})

-- How the call ends. It is still waiting while a worker has not returned.
pub data Outcome : Type 0 where
  returned_url : Text → Outcome
  thrown : Problem → Outcome
  waiting : Outcome

abbrev pub upload_url : Encoders → Text → Text → Text
upload_url encoders id user_id = with_user encoders (units "api/v1/uploads/" ++ id) user_id

abbrev pub chunk_url : Encoders → Text → ℕ → Text → Text
chunk_url encoders id index user_id =
    with_user encoders (units "api/v1/uploads/" ++ id ++ units "/chunks/" ++ decimal index) user_id

-- `Object.assign(state, startUpload(state.total), { status: 'uploading' })`.
unfoldable pub restart : UploadState → UploadState
restart state = record (start_upload state.total) { status = uploading }

-- The workers' part: the queue holds the indices of the file's chunks.
unfoldable pub transfer : UploadTask → List Event → Run
transfer task events =
    let chunks = chunk_indices task.file.size in
    run_events
      (start_workers (min upload_concurrency (length chunks)) (initial (restart task.state) chunks))
      events

-- The `catch` blocks: the status, the message, and the problem again.
unfoldable pub fail_task : UploadTask → UploadState → Problem → UploadTask × Outcome
fail_task task state problem = (
  record task { state = record state { status = failed }; error = some (problem_message problem) },
  thrown problem,
)

-- From the end of the workers on.
unfoldable pub settle :
    Encoders → Text → UploadTask → Handlers → Text → Reply (Unit {0}) → Run → UploadTask × Outcome
settle encoders base task handlers id completion run = elim run.failure [
  | some problem ↦ fail_task task run.state problem
  | none ↦ elim completion [
    | err problem ↦ fail_task task run.state problem
    | ok _ ↦ (
      record task { state = finish_upload run.state },
      returned_url (endpoint base (upload_url encoders id handlers.user_id)),
    )
  ]
]

unfoldable pub run_upload : Encoders → Text → UploadTask → Handlers → Answers → UploadTask × Outcome
run_upload encoders base task handlers answers = elim answers.session [
  | err problem ↦ fail_task task (restart task.state) problem
  | ok id ↦
      let run = transfer task answers.chunks in
      if all_returned run.workers
      then settle encoders base task handlers id answers.completion run
      else (record task { state = run.state }, waiting)
]
