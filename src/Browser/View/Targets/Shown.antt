-- ===== src/Browser/View/Targets/Shown.antt =====
-- What the events that web/src/views/FileBrowserView.vue offers do to the targets of its requests.
use easy_webdav.Prelude.{not, ◌&&◌, [], none, is_truthy, ◌==◌}
use easy_webdav.Screen.{
  Only, Only-append, Only-when, Only-if, Only-for_each, Only-for_each_of, when, for_each,
}
use easy_webdav.Browser.Panel.{begin_browse}
use easy_webdav.Browser.Path.{segments}
use easy_webdav.Browser.Listing.Order.{rows-All}
use easy_webdav.Browser.Panel.Dialogs.{mkdir, prompt_name}
use easy_webdav.Browser.Refs.{Visit, may_write, Browser}
use easy_webdav.Browser.View.{BrowserEvent, press, resolve_conflict, ask_name, start_reload, Entry}
use easy_webdav.Browser.View.Template.{
  screen, alerts, heading, usage_card, crumb, crumbs_from, toolbar, upload_bar, nothing_listed,
  list_head, row, listing, dialogs_shown, question_shown, is_empty, shown_rows,
}
use easy_webdav.Browser.View.Targets.{
  IsAimed, Keeps, assigned-IsHitting, save_name-Keeps, save_move-Keeps, do_delete-Keeps, row-Keeps,
}

module _ (Listed : Entry → Type 0) where
  module _ (visit : Visit) where
    module _ (b : Browser) (aimed : IsAimed Listed b) where
      abbrev P : BrowserEvent → Type 0
      P = Keeps Listed visit b aimed

      alerts-Keeps : Only P (alerts b.panel)
      unfolding alerts press
      alerts-Keeps =
          Only-append P (when (is_truthy b.panel.error) _) _
            (Only-when P (is_truthy b.panel.error) _ (λ _. (tt, (λ _. (aimed, tt), tt))))
            (Only-when P (is_truthy b.panel.notice) _ (λ _. (tt, (λ _. (aimed, tt), tt))))

      heading-Keeps : Only P (heading visit b.panel)
      unfolding heading usage_card press
      heading-Keeps =
          Only-append P (when (is_truthy visit.user_id) _) _
            (Only-when P (is_truthy visit.user_id) _ (λ _. (tt, (λ _. (aimed, (tt, tt)), tt))))
            (
              tt,
              (
                tt,
                (
                  λ _. (aimed, (tt, tt)),
                  Only-append P (for_each (crumbs_from [] (segments visit.address)) crumb) _
                      (Only-for_each P (crumbs_from [] (segments visit.address)) crumb
                        (λ part. (tt, (λ _. (aimed, (tt, tt)), tt))))
                      (Only-when P (not (is_truthy visit.user_id)) _ (λ _. (
                        tt,
                        (tt, Only-when P (not (b.panel.usage.quota == 0)) _ (λ _. (tt, tt))),
                      ))),
                ),
              ),
            )

      new_folder-Keeps : P (ask_name mkdir none)
      unfolding press prompt_name
      new_folder-Keeps = ((aimed.0, tt, aimed.2, aimed.3), tt)

      toolbar-Keeps : Only P (toolbar visit b)
      unfolding toolbar press start_reload begin_browse
      toolbar-Keeps = (
        λ _. (aimed, (tt, tt)),
        Only-append P (when (may_write visit) _) _
            (Only-when P (may_write visit) _
              (λ _. (λ _. (aimed, tt), (λ _. (aimed, tt), (λ _. new_folder-Keeps, tt)))))
            (Only-append P (when (not (is_empty b.panel.selected)) _) _
              (Only-when P (not (is_empty b.panel.selected)) _
                (λ _. (λ _. (aimed, assigned-IsHitting Listed visit _), tt)))
              (
                λ _. (aimed, tt),
                (
                  λ _. (aimed, (tt, tt)),
                  (tt, (tt, Only-when P (may_write visit) _ (λ _. (tt, tt)))),
                ),
              )),
      )

      listing-Keeps : Only P (listing visit b)
      unfolding listing nothing_listed list_head press
      listing-Keeps =
          Only-if P (is_empty (shown_rows visit b) && not b.panel.loading) _ _
            (
              tt,
              Only-when P (may_write visit) _
                  (λ _. (λ _. (aimed, tt), (λ _. new_folder-Keeps, tt))),
            )
            (
              λ _. (aimed, tt),
              (
                λ _. (aimed, tt),
                (
                  λ _. (aimed, tt),
                  (
                    tt,
                    Only-for_each_of P Listed (shown_rows visit b) (row visit b)
                        (rows-All Listed visit.platform b.hidden b.query b.sorting b.panel.entries
                          aimed.0)
                        (row-Keeps Listed visit b aimed),
                  ),
                ),
              ),
            )

      dialogs-Keeps : Only P (dialogs_shown visit b)
      unfolding dialogs_shown press
      dialogs-Keeps =
          Only-append P (when b.dialogs.name_modal _) _
            (Only-when P b.dialogs.name_modal _ (λ _. (
              tt,
              (
                λ _. (aimed, tt),
                (
                  λ _. (aimed, tt),
                  (λ _. (aimed, tt), (λ _. save_name-Keeps Listed visit b aimed, tt)),
                ),
              ),
            )))
            (Only-append P (when b.dialogs.move_modal _) _
              (Only-when P b.dialogs.move_modal _ (λ e. (
                tt,
                (
                  λ _. ((aimed.0, aimed.1, λ f. absurd cc, aimed.3), tt),
                  (
                    λ _. (aimed, tt),
                    (
                      λ _. ((aimed.0, aimed.1, λ f. absurd cc, aimed.3), tt),
                      (λ _. save_move-Keeps Listed visit b aimed e, tt),
                    ),
                  ),
                ),
              )))
              (Only-when P b.dialogs.delete_modal _ (λ e. (
                tt,
                (
                  λ _. ((aimed.0, aimed.1, aimed.2, λ f. absurd cc), tt),
                  (
                    tt,
                    (
                      λ _. ((aimed.0, aimed.1, aimed.2, λ f. absurd cc), tt),
                      (λ _. do_delete-Keeps Listed visit b aimed e, tt),
                    ),
                  ),
                ),
              ))))

      question-Keeps : Only P (question_shown visit b.question)
      unfolding question_shown press resolve_conflict
      question-Keeps = Only-when P b.question.modal _ (λ _. (
        tt,
        (
          λ _. (aimed, tt),
          (
            tt,
            (
              ((aimed, tt), ((aimed, tt), ((aimed, tt), tt))),
              (λ _. (aimed, tt), (λ _. (aimed, (tt, tt)), (λ _. (aimed, (tt, tt)), tt))),
            ),
          ),
        ),
      ))

      pub screen-Keeps : Only P (screen visit b)
      unfolding screen
      screen-Keeps = Only-append P (alerts b.panel) _ alerts-Keeps (
          Only-append P (heading visit b.panel) _ heading-Keeps (
            Only-append P (toolbar visit b) _ toolbar-Keeps (
              Only-append P (for_each b.panel.upload_tasks (upload_bar visit)) _
                (Only-for_each P b.panel.upload_tasks (upload_bar visit) (λ task. (tt, (tt, tt))))
                (Only-append P (listing visit b) _ listing-Keeps
                  (Only-append P (dialogs_shown visit b) _ dialogs-Keeps question-Keeps)))))
