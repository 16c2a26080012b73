-- ===== src/Browser/Panel/Laws.antt =====
-- What the panel shows after its operations (web/src/views/FileBrowserView.vue).
use easy_webdav.Prelude.{
  ◌≡◌, refl, sym, ap, ◌∙◌, ◌≢◌, Bool, true, false, ◌&&◌, List, [], ◌∷◌, ◌++◌, none, some, Text,
  if◌then◌else◌, is_truthy, All, IsSegment, keep, split_slash, segments-join_slash, All-append,
  Bool-cases, inl, inr,
}
use easy_webdav.Api.Problem.{Reply, ok, err, Reply-cases}
use easy_webdav.Api.Types.{Entry}
use easy_webdav.Browser.Path.{parts, join, PathMatch}
use easy_webdav.Browser.Path.Laws.{join-parts}
use easy_webdav.Browser.Panel.{
  Translator, Panel, Place, UsageAnswers, problem_text, fail, reload, browse, begin_browse,
  finish_browse, load_usage, apply_overview, usage_of, Option,
}
use easy_webdav.Browser.Panel.Dialogs.{
  Dialogs, FileAction, delete_file, prompt_delete, delete_request, name_of, ActionAnswers, action,
  submit_name, submit_move, confirm_delete, name_request, move_request,
}

-- The error that a listing leaves.
abbrev pub listing_error : Translator → Reply (List Entry) → Text
listing_error t (ok _) = []
listing_error t (err problem) = problem_text t problem

-- What a listing that failed leaves of the notice.
abbrev pub kept_notice : Reply (List Entry) → Text → Text
kept_notice (ok _) notice = notice
kept_notice (err _) notice = []

apply_overview-texts :
    (item : _) (panel : Panel)
    → ((apply_overview item panel).error ≡ panel.error)
      × ((apply_overview item panel).notice ≡ panel.notice)
unfolding apply_overview
apply_overview-texts none panel = (refl, refl)
apply_overview-texts (some item) panel = (refl, refl)

load_usage-texts :
    (place : Place) (answers : UsageAnswers) (panel : Panel)
    → ((load_usage place answers panel).error ≡ panel.error)
      × ((load_usage place answers panel).notice ≡ panel.notice)
unfolding load_usage
load_usage-texts place answers panel = elim (Bool-cases (is_truthy place.user_id && place.admin)) [
  | inl e ↦ elim (Reply-cases answers.overview) [
    | inl (overview, f) ↦
        rw (e, f, load_usage) (apply_overview-texts (usage_of place.user_id overview.users) panel)
    | inr (problem, f) ↦ rw (e, f, load_usage) (refl, refl)
  ]
  | inr e ↦ elim (Reply-cases answers.mine) [
    | inl (mine, f) ↦ rw (e, f, load_usage) (refl, refl)
    | inr (problem, f) ↦ rw (e, f, load_usage) (refl, refl)
  ]
]

pub reload-texts :
    (t : Translator) (place : Place) (listing : Reply (List Entry)) (answers : UsageAnswers)
    (panel : Panel)
    → ((reload t place listing answers panel).error ≡ listing_error t listing)
      × ((reload t place listing answers panel).notice ≡ kept_notice listing panel.notice)
unfolding reload browse finish_browse begin_browse fail
reload-texts t place (ok entries) answers panel = load_usage-texts place answers _
reload-texts t place (err problem) answers panel = load_usage-texts place answers _

append-cancel {ℓ} : {A : Type ℓ} (xs ys : List A) (a : A) → xs ++ a ∷ [] ≡ ys ++ a ∷ [] → xs ≡ ys
append-cancel [] [] a e = refl
append-cancel [] (y ∷ []) a e = cc
append-cancel [] (y ∷ z ∷ ys) a e = cc
append-cancel (x ∷ []) [] a e = cc
append-cancel (x ∷ z ∷ xs) [] a e = cc
append-cancel (x ∷ xs) (y ∷ ys) a e =
    let rest : xs ++ a ∷ [] ≡ ys ++ a ∷ [] = cc in
    let head : x ≡ y = cc in let tail = append-cancel xs ys a rest in cc

-- A name in two directories has one path only if they are one directory.
join-injective :
    (shown other : List Text) (name : Text)
    → All IsSegment shown
    → All IsSegment other
    → IsSegment name
    → join (parts shown) name ≡ join (parts other) name
    → shown ≡ other
join-injective shown other name h k n e = append-cancel shown other name (
    sym
      (segments-join_slash (shown ++ name ∷ []) (All-append IsSegment shown (name ∷ []) h (n, tt)))
    ∙ ap (λ path. keep is_truthy (split_slash path))
        (sym (join-parts shown name h n) ∙ e ∙ join-parts other name k n)
    ∙ segments-join_slash (other ++ name ∷ []) (All-append IsSegment other (name ∷ []) k (n, tt)))

-- The answers to listings are taken in whatever order they come. If the one for the directory that was
-- left arrives last, its entries are shown under the address of the other directory, and deleting one
-- of them asks for a path that is not its own.
pub browse_late :
    (t : Translator) (left shown : List Text) (entry : Entry) (rest current : List Entry)
    → (dialogs : Dialogs) (panel : Panel) → All IsSegment left
    → All IsSegment shown
    → IsSegment entry.name
    → left ≢ shown
    → let late =
        finish_browse t
          (ok (entry ∷ rest))
          (finish_browse t (ok current) (begin_browse (begin_browse panel))) in
      (late.entries ≡ entry ∷ rest)
      × (late.loading ≡ false)
      × (late.error ≡ [])
      × (delete_request t (parts shown) (prompt_delete entry dialogs)
          ≢ delete_file (join (parts left) entry.name))
unfolding finish_browse begin_browse delete_request prompt_delete name_of
browse_late t left shown entry rest current dialogs panel h k n differ = (
  refl,
  refl,
  refl,
  λ e.
      let same : join (parts left) entry.name ≡ join (parts shown) entry.name = cc in
      differ (join-injective left shown entry.name h k n same),
)

abbrev pub is_err {ℓ} : {A : Type ℓ} → Reply A → Bool
is_err (ok _) = false
is_err (err _) = true

-- The error that an action leaves.
abbrev pub action_error : Translator → ActionAnswers → Reply (Unit {0}) → Text
action_error t answers (ok _) = listing_error t answers.listing
action_error t answers (err problem) = problem_text t problem

action-texts :
    (t : Translator) (address : PathMatch) (place : Place) (answers : ActionAnswers) (panel : Panel)
    → let after = action t address place answers panel in
      ((if after.1 then false else true) ≡ is_err answers.done)
      × (after.0.error ≡ action_error t answers answers.done)
unfolding action fail
action-texts t address place answers panel = elim (Reply-cases answers.done) [
  | inl (done, e) ↦
      rw (e, action) (refl, (reload-texts t place answers.listing answers.usage panel).0)
  | inr (problem, e) ↦ rw (e, action) (refl, refl)
]

-- The three dialogs: whether one is open, the request that its form makes, and its submission.
pub data DialogKind : Type 0 where
  of_name of_move of_delete : DialogKind

abbrev pub is_open : DialogKind → Dialogs → Bool
is_open of_name dialogs = dialogs.name_modal
is_open of_move dialogs = dialogs.move_modal
is_open of_delete dialogs = dialogs.delete_modal

module _ (t : Translator) (address : PathMatch) where
  abbrev pub request_of : DialogKind → Dialogs → Option FileAction
  request_of of_name dialogs = name_request t address dialogs
  request_of of_move dialogs = move_request t address dialogs
  request_of of_delete dialogs = some (delete_request t address dialogs)

  abbrev pub submit_of : DialogKind → Place → ActionAnswers → Dialogs → Panel → Dialogs × Panel
  submit_of of_name place answers dialogs panel = submit_name t address place answers dialogs panel
  submit_of of_move place answers dialogs panel = submit_move t address place answers dialogs panel
  submit_of of_delete place answers dialogs panel =
      confirm_delete t address place answers dialogs panel

  -- Whichever of the three dialogs is open: if its form makes a request, the dialog stays open exactly if
  -- the server refuses that request, and the error that is shown then is the refusal; otherwise it is that
  -- of the listing that follows, or none.
  pub dialogs_close :
      (kind : DialogKind) (place : Place) (answers : ActionAnswers) (dialogs : Dialogs)
      (panel : Panel) (request : FileAction)
      → request_of kind dialogs ≡ some request
      → is_open kind dialogs ≡ true
      → let after = submit_of kind place answers dialogs panel in
        (is_open kind after.0 ≡ is_err answers.done)
        × (after.1.error ≡ action_error t answers answers.done)
  unfolding submit_name submit_move confirm_delete
  dialogs_close of_name place answers dialogs panel request r shown =
      rw (r, submit_name, shown) (action-texts t address place answers panel)
  dialogs_close of_move place answers dialogs panel request r shown =
      rw (r, submit_move, shown) (action-texts t address place answers panel)
  dialogs_close of_delete place answers dialogs panel request r shown =
      rw (confirm_delete, shown) (action-texts t address place answers panel)
