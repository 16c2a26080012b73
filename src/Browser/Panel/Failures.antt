-- ===== src/Browser/Panel/Failures.antt =====
-- What is shown once picked files are uploaded (web/src/views/FileBrowserView.vue).
use easy_webdav.Prelude.{
  ℕ, ◌+◌, ◌≡◌, refl, sym, ap, ◌∙◌, ◌≢◌, Bool, true, false, List, [], ◌∷◌, ◌++◌, Text, ◌==◌,
  if◌then◌else◌, arith, subst,
}
use easy_webdav.Api.Problem.{Reply, ok, err}
use easy_webdav.Api.Types.{Entry}
use easy_webdav.Api.Url.{Encoders}
use easy_webdav.Upload.Session.{
  UploadTask, Handlers, Answers, Outcome, returned_url, thrown, waiting,
}
use easy_webdav.Browser.Panel.{Translator, Panel, Place, UsageAnswers, fail, succeed, reload}
use easy_webdav.Browser.Panel.Uploads.{
  Loop, settle_job, ended, run_jobs, started_loop, end_uploads, upload_all,
}
use easy_webdav.Browser.Panel.Laws.{listing_error, kept_notice, reload-texts}

module _ (t : Translator) (encoders : Encoders) (base : Text) (handlers : ℕ → Handlers)
    (served : ℕ → Answers) where
  abbrev pub outcome : ℕ → UploadTask → Outcome
  outcome n task = (ended t encoders base handlers served n task).1

  abbrev pub thrown_count : Outcome → ℕ
  thrown_count (thrown _) = 1
  thrown_count _ = 0

  -- The uploads that throw, and that every one ends.
  abbrev pub failures : ℕ → List UploadTask → ℕ
  failures n [] = 0
  failures n (task ∷ tasks) = thrown_count (outcome n task) + failures (n + 1) tasks

  abbrev pub AllEnd : ℕ → List UploadTask → Type 0
  AllEnd n [] = Unit
  AllEnd n (task ∷ tasks) = (outcome n task ≢ waiting) × AllEnd (n + 1) tasks

  -- What the loop has come to.
  abbrev Ran : ℕ → Loop → Loop → Type 0
  Ran count loop after =
      (after.failed ≡ loop.failed + count)
      × (after.is_waiting ≡ false)
      × (after.panel.notice ≡ (if count == 0 then loop.panel.notice else []))

  settle_job-Ran :
      (end : UploadTask × Outcome) (loop : Loop)
      → end.1 ≢ waiting
      → loop.is_waiting ≡ false
      → Ran (thrown_count end.1) loop (settle_job t encoders base handlers served end loop)
  unfolding settle_job fail
  settle_job-Ran (task, returned_url url) loop h w = (omega arith, w, refl)
  settle_job-Ran (task, thrown problem) loop h w = (refl, w, refl)
  settle_job-Ran (task, waiting) loop h w = absurd (h refl)

  -- One round of the loop whose upload has ended.
  run_jobs-go :
      (n : ℕ) (task : UploadTask) (tasks : List UploadTask) (loop : Loop)
      → let next =
          settle_job t encoders base handlers served
            (ended t encoders base handlers served n task)
            loop in
        next.is_waiting ≡ false
        → run_jobs t encoders base handlers served n (task ∷ tasks) loop
          ≡ run_jobs t encoders base handlers served (n + 1) tasks next
  unfolding run_jobs
  run_jobs-go n task tasks loop e =
      let next =
        settle_job t encoders base handlers served (ended t encoders base handlers served n task)
          loop in
      ap
        (λ w.
          if w
          then record next { tasks = next.tasks ++ tasks }
          else run_jobs t encoders base handlers served (n + 1) tasks next)
        e

  blank_notice :
      (a b : ℕ) (notice : Text)
      → (if b == 0 then (if a == 0 then notice else []) else [])
        ≡ (if (a + b) == 0 then notice else [])
  blank_notice a b notice = ground arith

  Ran-trans :
      (a b : ℕ) (loop next after : Loop)
      → Ran a loop next
      → Ran b next after
      → Ran (a + b) loop after
  Ran-trans a b loop next after (f, w, p) (g, v, q) = (
    omega arith,
    v,
    q ∙ ap (λ notice. if b == 0 then notice else []) p ∙ blank_notice a b loop.panel.notice,
  )

  run_jobs-Ran :
      (n : ℕ) (tasks : List UploadTask) (loop : Loop)
      → AllEnd n tasks
      → loop.is_waiting ≡ false
      → Ran (failures n tasks) loop (run_jobs t encoders base handlers served n tasks loop)
  unfolding run_jobs
  run_jobs-Ran n [] loop h w = (omega arith, w, refl)
  run_jobs-Ran n (task ∷ tasks) loop (h, k) w =
      let end = ended t encoders base handlers served n task in
      let next = settle_job t encoders base handlers served end loop in
      let first = settle_job-Ran end loop h w in
      subst (Ran (failures n (task ∷ tasks)) loop) (sym (run_jobs-go n task tasks loop first.1)) (
        Ran-trans (thrown_count end.1) (failures (n + 1) tasks) loop next
          (run_jobs t encoders base handlers served (n + 1) tasks next) first
          (run_jobs-Ran (n + 1) tasks next k first.1))

  succeed-texts :
      (done : Bool) (message : Text) (panel : Panel)
      → let after = if done then succeed message panel else panel in
        (after.notice ≡ (if done then message else panel.notice))
        × (after.error ≡ (if done then [] else panel.error))
  unfolding succeed
  succeed-texts true message panel = (refl, refl)
  succeed-texts false message panel = (refl, refl)

  blank_kept : (listing : Reply (List Entry)) → kept_notice listing [] ≡ []
  blank_kept (ok entries) = refl
  blank_kept (err problem) = refl

  end_uploads-texts :
      (place : Place) (listing : Reply (List Entry)) (answers : UsageAnswers) (count : ℕ)
      (before : Text) (loop : Loop)
      → loop.failed ≡ count
      → loop.panel.notice ≡ (if count == 0 then before else [])
      → let after = end_uploads t encoders base handlers served place listing answers loop in
        (after.notice ≡ (if count == 0 then t.plain "uploadComplete" else []))
        × (after.error ≡ (if count == 0 then [] else listing_error t listing))
  unfolding end_uploads
  end_uploads-texts place listing answers count before loop e h =
      let tasked = record loop.panel { upload_tasks = loop.tasks } in
      let reloaded = reload t place listing answers tasked in
      let (error, notice) = reload-texts t place listing answers tasked in
      let (note, text) = succeed-texts (loop.failed == 0) (t.plain "uploadComplete") reloaded in
      (
        note ∙ ground (arith, e, h, notice, blank_kept listing),
        text
            ∙ ap (λ n. if n == 0 then [] else reloaded.error) e
            ∙ ap (λ s. if count == 0 then [] else s) error,
      )

  -- Once every upload has ended, the notice is that of a completed upload if none failed and empty
  -- otherwise; the error is then that of the listing that follows, and never one of an upload's.
  pub upload_all_lem :
      (place : Place) (listing : Reply (List Entry)) (answers : UsageAnswers)
      → (first : UploadTask) (tasks : List UploadTask) (panel : Panel) → AllEnd 0 (first ∷ tasks)
      → let after =
          upload_all t encoders base handlers served place listing answers (first ∷ tasks) panel in
        let count = failures 0 (first ∷ tasks) in
        (after.notice ≡ (if count == 0 then t.plain "uploadComplete" else []))
        × (after.error ≡ (if count == 0 then [] else listing_error t listing))
  unfolding upload_all end_uploads succeed
  upload_all_lem place listing answers first tasks panel h =
      let start = started_loop t encoders base handlers served panel in
      let loop = run_jobs t encoders base handlers served 0 (first ∷ tasks) start in
      let (failed, w, notice) = run_jobs-Ran 0 (first ∷ tasks) start h refl in
      let count = failures 0 (first ∷ tasks) in
      let after : Panel → Type 0 = λ shown.
        (shown.notice ≡ (if count == 0 then t.plain "uploadComplete" else []))
        × (shown.error ≡ (if count == 0 then [] else listing_error t listing)) in
      let ends = end_uploads t encoders base handlers served place listing answers loop in
      subst after
        (sym (ap (λ b. if b then record loop.panel { upload_tasks = loop.tasks } else ends) w))
        (end_uploads-texts place listing answers count panel.notice loop (failed ∙ omega arith)
          notice)
