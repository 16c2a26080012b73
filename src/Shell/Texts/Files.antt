-- ===== src/Shell/Texts/Files.antt =====
-- The messages of the file browser (web/src/views/FileBrowserView.vue).
use easy_webdav.Prelude.{refl, not, ◌&&◌, List, [], ◌∷◌, is_truthy, ◌==◌, map}
use easy_webdav.Api.Types.{Entry}
use easy_webdav.Messages.Catalogue.{kind_at}
use easy_webdav.Screen.{when, for_each}
use easy_webdav.Screen.Labels.{HasOptions, Speaks-append, Speaks-when, Speaks-for_each, Speaks-if}
use easy_webdav.Browser.Path.{segments, current_path}
use easy_webdav.Browser.Panel.{Panel}
use easy_webdav.Browser.Panel.Dialogs.{
  RowKey, NameAction, mkdir, rename, copy, row_options, download_row, rename_row, move_row,
  copy_row, delete_row,
}
use easy_webdav.Browser.Refs.{Visit, Browser, Question, may_write}
use easy_webdav.Browser.View.{select_option}
use easy_webdav.Browser.View.Template.{
  alerts, usage_card, heading, crumb, crumbs_from, toolbar, upload_bar, nothing_listed, list_head,
  row_label, row_buttons, row, shown_rows, listing, name_title, name_hint, dialogs_shown,
  question_shown, screen, is_empty,
}
use easy_webdav.Shell.Texts.Line.{HasLine, IsSpoken, line, either, either_part, either_label, said}

alerts-IsSpoken : (panel : Panel) → IsSpoken (alerts panel)
unfolding alerts
alerts-IsSpoken panel =
    Speaks-append HasLine (when (is_truthy panel.error) _) _
      (Speaks-when HasLine (is_truthy panel.error) _ ((tt, tt), (tt, tt)))
      (Speaks-when HasLine (is_truthy panel.notice) _ ((tt, tt), (tt, tt)))

heading-IsSpoken : (visit : Visit) (panel : Panel) → IsSpoken (heading visit panel)
unfolding heading usage_card kind_at
heading-IsSpoken visit panel =
    Speaks-append HasLine (when (is_truthy visit.user_id) _) _
      (Speaks-when HasLine (is_truthy visit.user_id) _ ((line _ refl, tt), (said _ refl, tt)))
      (
        said _ refl,
        (
          (
            either_part _ _ (is_truthy (current_path visit.address)) tt
                (either_part _ _ (is_truthy visit.user_id) (line _ refl) (line _ refl)),
            tt,
          ),
          (
            said _ refl,
            Speaks-append HasLine (for_each (crumbs_from [] (segments visit.address)) crumb) _
                (Speaks-for_each HasLine (crumbs_from [] (segments visit.address)) crumb
                  (λ part. ((tt, tt), ((tt, tt), tt))))
                (Speaks-when HasLine (not (is_truthy visit.user_id)) _ (
                  said _ refl,
                  (
                    (tt, either_label _ _ (not (panel.usage.quota == 0)) (tt, (tt, tt)) tt),
                    Speaks-when HasLine (not (panel.usage.quota == 0)) _ (tt, tt),
                  ),
                )),
          ),
        ),
      )

toolbar-IsSpoken : (visit : Visit) (b : Browser) → IsSpoken (toolbar visit b)
unfolding toolbar kind_at
toolbar-IsSpoken visit b = (
  said _ refl,
  Speaks-append HasLine (when (may_write visit) _) _
      (Speaks-when HasLine (may_write visit) _ (said _ refl, (said _ refl, (said _ refl, tt))))
      (Speaks-append HasLine (when (not (is_empty b.panel.selected)) _) _
        (Speaks-when HasLine (not (is_empty b.panel.selected)) _ ((line _ refl, (tt, tt)), tt))
        (
          said _ refl,
          (said _ refl, (tt, (tt, Speaks-when HasLine (may_write visit) _ (said _ refl, tt)))),
        )),
)

options-HasKeys :
    (entry : Entry) (keys : List RowKey)
    → HasOptions HasLine (map (λ key. (row_label key, select_option entry key)) keys)
unfolding kind_at
options-HasKeys entry [] = tt
options-HasKeys entry (download_row ∷ keys) = (said _ refl, options-HasKeys entry keys)
options-HasKeys entry (rename_row ∷ keys) = (said _ refl, options-HasKeys entry keys)
options-HasKeys entry (move_row ∷ keys) = (said _ refl, options-HasKeys entry keys)
options-HasKeys entry (copy_row ∷ keys) = (said _ refl, options-HasKeys entry keys)
options-HasKeys entry (delete_row ∷ keys) = (said _ refl, options-HasKeys entry keys)

row-IsSpoken : (visit : Visit) (b : Browser) (entry : Entry) → IsSpoken (row visit b entry)
unfolding row row_buttons kind_at
row-IsSpoken visit b entry = (
  tt,
  (
    (either _ _ entry.directory (line _ refl) (line _ refl), (tt, tt)),
    (
      (tt, tt),
      (
        (tt, tt),
        Speaks-append HasLine (row_buttons visit entry) _
            (
              said _ refl,
              Speaks-when HasLine (may_write visit) _
                  (said _ refl, (said _ refl, (said _ refl, (said _ refl, tt)))),
            )
            (((tt, tt), options-HasKeys entry (row_options (may_write visit))), tt),
      ),
    ),
  ),
)

nothing_listed-IsSpoken : (visit : Visit) (b : Browser) → IsSpoken (nothing_listed visit b)
unfolding nothing_listed kind_at
nothing_listed-IsSpoken visit b = (
  (either _ _ (is_truthy b.query) (line _ refl) (line _ refl), tt),
  Speaks-when HasLine (may_write visit) _ (said _ refl, (said _ refl, tt)),
)

listing-IsSpoken : (visit : Visit) (b : Browser) → IsSpoken (listing visit b)
unfolding listing list_head kind_at
listing-IsSpoken visit b =
    Speaks-if HasLine (is_empty (shown_rows visit b) && not b.panel.loading)
      (nothing_listed visit b) _ (nothing_listed-IsSpoken visit b)
      (
        (line _ refl, (tt, tt)),
        (
          (line _ refl, (tt, tt)),
          (
            (line _ refl, (tt, tt)),
            (
              said _ refl,
              Speaks-for_each HasLine (shown_rows visit b) (row visit b) (row-IsSpoken visit b),
            ),
          ),
        ),
      )

name_title-HasLine :
    (action : NameAction) → HasLine (name_title action) × HasLine (name_hint action)
unfolding kind_at
name_title-HasLine mkdir = (line _ refl, line _ refl)
name_title-HasLine rename = (line _ refl, line _ refl)
name_title-HasLine copy = (line _ refl, line _ refl)

dialogs-IsSpoken : (visit : Visit) (b : Browser) → IsSpoken (dialogs_shown visit b)
unfolding dialogs_shown kind_at
dialogs-IsSpoken visit b =
    let titles = name_title-HasLine b.dialogs.name_action in
    Speaks-append HasLine (when b.dialogs.name_modal _) _
      (Speaks-when HasLine b.dialogs.name_modal _
        ((titles.0, tt), (tt, ((titles.1, tt), (said _ refl, (said _ refl, tt))))))
      (Speaks-append HasLine (when b.dialogs.move_modal _) _
        (Speaks-when HasLine b.dialogs.move_modal _
          (said _ refl, (tt, (said _ refl, (said _ refl, (said _ refl, tt))))))
        (Speaks-when HasLine b.dialogs.delete_modal _
          (said _ refl, (tt, (said _ refl, (said _ refl, (said _ refl, tt)))))))

question-IsSpoken : (visit : Visit) (question : Question) → IsSpoken (question_shown visit question)
unfolding question_shown kind_at
question-IsSpoken visit question = Speaks-when HasLine question.modal _ (
  said _ refl,
  (
    tt,
    (
      said _ refl,
      (
        (tt, (said _ refl, (said _ refl, (said _ refl, tt)))),
        (said _ refl, (said _ refl, (said _ refl, tt))),
      ),
    ),
  ),
)

pub screen-IsSpoken : (visit : Visit) (b : Browser) → IsSpoken (screen visit b)
unfolding screen
screen-IsSpoken visit b = Speaks-append HasLine (alerts b.panel) _ (alerts-IsSpoken b.panel) (
    Speaks-append HasLine (heading visit b.panel) _ (heading-IsSpoken visit b.panel) (
      Speaks-append HasLine (toolbar visit b) _ (toolbar-IsSpoken visit b) (
        Speaks-append HasLine (for_each b.panel.upload_tasks (upload_bar visit)) _
          (Speaks-for_each HasLine b.panel.upload_tasks (upload_bar visit)
            (λ task. ((tt, tt), (tt, tt))))
          (Speaks-append HasLine (listing visit b) _ (listing-IsSpoken visit b) (
            Speaks-append HasLine (dialogs_shown visit b) _ (dialogs-IsSpoken visit b)
              (question-IsSpoken visit b.question))))))
