-- ===== src/Browser/View/Reader.antt =====
-- web/src/views/FileBrowserView.vue: what a user who may only read can do on the view.
pub mod Runs
use easy_webdav.Prelude.{
  ◌≡◌, refl, ◌≢◌, Bool, true, false, not, ◌&&◌, List, [], Option, none, some, Text, All,
  if◌then◌else◌, Bool-cases, inl, inr, map, ◌==◌,
}
use easy_webdav.Browser.Path.{segments}
use easy_webdav.Api.Types.{Entry}
use easy_webdav.Screen.{
  Widget, AllOptions, Offers, Only, Offers-Only, Only-append, Only-when, Only-if, Only-for_each,
  when, for_each,
}
use easy_webdav.Browser.Panel.{Panel}
use easy_webdav.Browser.Panel.Dialogs.{download_row, row_options}
use easy_webdav.Browser.Refs.{Visit, may_write, Question, Browser}
use easy_webdav.Browser.View.{
  Sent, is_write, row_action, resolve_conflict, ask_conflict, press, drag_over, drag_leave,
  drop_files, new_browser, select_option, BrowserEvent, is_truthy, open_entry, assigned,
  take_emitted, start_reload,
}
use easy_webdav.Browser.View.Template.{
  screen, alerts, heading, usage_card, crumb, crumbs_from, toolbar, upload_bar, nothing_listed,
  list_head, row_buttons, row, listing, dialogs_shown, question_shown, is_empty, shown_rows,
  row_label,
}
use easy_webdav.Browser.View.Steps.{
  leaves, emits, Answer, receive, Cause, by_drop, Step, Reach, mounted, presses, moves, chooses,
  drags, drops, receives, reloaded, named, moved, deleted, asked, under_way, upload_failed,
  uploads_ended,
}

-- No dialog is open that changes files.
abbrev pub IsClosed : Browser → Type 0
IsClosed b =
    (b.dialogs.name_modal ≡ false)
    × (b.dialogs.move_modal ≡ false)
    × (b.dialogs.delete_modal ≡ false)

abbrev pub OnlyReads : List Sent → Type 0
OnlyReads sent = All (λ request. is_write request ≡ false) sent

module _ (visit : Visit) where
  -- An event that leaves the dialogs closed and sends no request that changes files.
  abbrev pub IsHarmless : BrowserEvent → Type 0
  IsHarmless e =
      (b : Browser) → IsClosed b → IsClosed (press visit e b).0 × OnlyReads (press visit e b).1

  assigned-OnlyReads : (address : Option Text) → OnlyReads (assigned address)
  assigned-OnlyReads none = tt
  assigned-OnlyReads (some address) = (refl, tt)

  download-IsHarmless : (entry : Entry) → IsHarmless (select_option entry download_row)
  unfolding press row_action
  download-IsHarmless entry b h = (h, assigned-OnlyReads _)

  open-IsHarmless : (entry : Entry) → IsHarmless (open_entry entry)
  unfolding press
  open-IsHarmless entry b h = elim (Bool-cases entry.directory) [
    | inl e ↦ rw e (h, (refl, tt))
    | inr e ↦ rw e (h, tt)
  ]

  alerts-Only : (panel : Panel) → Only IsHarmless (alerts panel)
  unfolding alerts press
  alerts-Only panel =
      Only-append IsHarmless (when (is_truthy panel.error) _) _
        (Only-when IsHarmless (is_truthy panel.error) _ (λ _. (tt, (λ _ b h. (h, tt), tt))))
        (Only-when IsHarmless (is_truthy panel.notice) _ (λ _. (tt, (λ _ b h. (h, tt), tt))))

  heading-Only : (panel : Panel) → Only IsHarmless (heading visit panel)
  unfolding heading usage_card press
  heading-Only panel =
      Only-append IsHarmless (when (is_truthy visit.user_id) _) _
        (Only-when IsHarmless (is_truthy visit.user_id) _
          (λ _. (tt, (λ _ b h. (h, (refl, tt)), tt))))
        (
          tt,
          (
            tt,
            (
              λ _ b h. (h, (refl, tt)),
              Only-append IsHarmless (for_each (crumbs_from [] (segments visit.address)) crumb) _
                  (Only-for_each IsHarmless (crumbs_from [] (segments visit.address)) crumb
                    (λ part. (tt, (λ _ b h. (h, (refl, tt)), tt))))
                  (Only-when IsHarmless (not (is_truthy visit.user_id)) _ (λ _. (
                    tt,
                    (tt, Only-when IsHarmless (not (panel.usage.quota == 0)) _ (λ _. (tt, tt))),
                  ))),
            ),
          ),
        )

  list_head-Only : (b : Browser) → Only IsHarmless (list_head visit b)
  unfolding list_head press
  list_head-Only b = (λ _ b h. (h, tt), (λ _ b h. (h, tt), (λ _ b h. (h, tt), (tt, tt))))

  module _ (reads : may_write visit ≡ false) where
    never : (ws : List (Widget BrowserEvent)) → Only IsHarmless (when (may_write visit) ws)
    never ws = Only-when IsHarmless (may_write visit) ws (λ e. absurd (cc))

    toolbar-Only : (b : Browser) → Only IsHarmless (toolbar visit b)
    unfolding toolbar press start_reload
    toolbar-Only b = (
      λ _ b h. (h, (refl, tt)),
      Only-append IsHarmless (when (may_write visit) _) _ (never _) (
          Only-append IsHarmless (when (not (is_empty b.panel.selected)) _) _
            (Only-when IsHarmless (not (is_empty b.panel.selected)) _
              (λ _. (λ _ b h. (h, assigned-OnlyReads _), tt)))
            (λ _ b h. (h, tt), (λ _ b h. (h, (refl, tt)), (tt, (tt, never _))))),
    )

    nothing_listed-Only : (b : Browser) → Only IsHarmless (nothing_listed visit b)
    unfolding nothing_listed
    nothing_listed-Only b = (tt, never _)

    options-Only :
        (entry : Entry)
        → AllOptions IsHarmless
            (map (λ key. (row_label key, select_option entry key)) (row_options (may_write visit)))
    unfolding row_options
    options-Only entry = rw reads (download-IsHarmless entry, tt)

    row-Only : (b : Browser) (entry : Entry) → Only IsHarmless (row visit b entry)
    unfolding row row_buttons row_options press
    row-Only b entry = (
      λ _ b h. (h, tt),
      (
        λ _. open-IsHarmless entry,
        (
          tt,
          (
            tt,
            Only-append IsHarmless (row_buttons visit entry) _
                (λ _. download-IsHarmless entry, never _) (options-Only entry, tt),
          ),
        ),
      ),
    )

    listing-Only : (b : Browser) → Only IsHarmless (listing visit b)
    unfolding listing
    listing-Only b =
        Only-if IsHarmless (is_empty (shown_rows visit b) && not b.panel.loading)
          (nothing_listed visit b) _ (nothing_listed-Only b)
          (Only-append IsHarmless (list_head visit b) _ (list_head-Only b)
            (Only-for_each IsHarmless (shown_rows visit b) (row visit b) (row-Only b)))

    dialogs-Only : (b : Browser) → IsClosed b → Only IsHarmless (dialogs_shown visit b)
    unfolding dialogs_shown
    dialogs-Only b h =
        Only-append IsHarmless (when b.dialogs.name_modal _) _
          (Only-when IsHarmless b.dialogs.name_modal _ (λ e. absurd cc))
          (Only-append IsHarmless (when b.dialogs.move_modal _) _
            (Only-when IsHarmless b.dialogs.move_modal _ (λ e. absurd cc))
            (Only-when IsHarmless b.dialogs.delete_modal _ (λ e. absurd cc)))

    question-Only : (question : Question) → Only IsHarmless (question_shown visit question)
    unfolding question_shown press resolve_conflict
    question-Only question = Only-when IsHarmless question.modal _ (λ _. (
      tt,
      (
        λ _ b h. (h, tt),
        (
          tt,
          (
            (λ b h. (h, tt), (λ b h. (h, tt), (λ b h. (h, tt), tt))),
            (λ _ b h. (h, tt), (λ _ b h. (h, (refl, tt)), (λ _ b h. (h, (refl, tt)), tt))),
          ),
        ),
      ),
    ))

    pub screen-Only : (b : Browser) → IsClosed b → Only IsHarmless (screen visit b)
    unfolding screen
    screen-Only b h = Only-append IsHarmless (alerts b.panel) _ (alerts-Only b.panel) (
        Only-append IsHarmless (heading visit b.panel) _ (heading-Only b.panel) (
          Only-append IsHarmless (toolbar visit b) _ (toolbar-Only b) (
            Only-append IsHarmless (for_each b.panel.upload_tasks (upload_bar visit)) _
              (Only-for_each IsHarmless b.panel.upload_tasks (upload_bar visit)
                (λ task. (tt, (tt, tt))))
              (Only-append IsHarmless (listing visit b) _ (listing-Only b) (
                Only-append IsHarmless (dialogs_shown visit b) _ (dialogs-Only b h)
                  (question-Only b.question))))))
