-- ===== src/Browser/View/Targets/Runs.antt =====
-- The targets of the requests along the runs of web/src/views/FileBrowserView.vue.
use easy_webdav.Prelude.{
  ◌≡◌, refl, sym, subst, Bool, true, false, ◌&&◌, List, Option, none, some, All, if◌then◌else◌,
  Bool-cases, inl, inr, is_truthy,
}
use easy_webdav.Api.Problem.{Reply, ok, err, Reply-cases}
use easy_webdav.Api.Types.{Entry, UserUsage}
use easy_webdav.Screen.{Offers-Only}
use easy_webdav.Browser.Panel.{
  Panel, Place, Translator, UsageAnswers, reload, browse, finish_browse, begin_browse, load_usage,
  apply_overview, usage_of, fail, succeed,
}
use easy_webdav.Browser.Panel.Dialogs.{ActionAnswers, action}
use easy_webdav.Browser.Refs.{Visit, place_of, may_write, Browser, at_route}
use easy_webdav.Browser.View.{
  Sent, ask_conflict, drag_over, drag_leave, drop_files, pick_files, new_browser, take_emitted,
  start_reload, follow_route, Text, reloads_for,
}
use easy_webdav.Browser.View.Steps.{
  Answer, receive, Cause, Step, Reach, presses, chooses, drags, leaves, drops, receives, mounted,
  moves, reloaded, named, moved, deleted, asked, under_way, upload_failed, uploads_ended, emits,
  navigates,
}
use easy_webdav.Browser.View.Targets.Shown.{screen-Keeps}
use easy_webdav.Browser.View.Targets.{AreListed, Brings, IsAimed, IsHitting, Keeps}

apply_overview-entries :
    (found : Option UserUsage) (panel : Panel)
    → (apply_overview found panel).entries ≡ panel.entries
unfolding apply_overview
apply_overview-entries none panel = refl
apply_overview-entries (some item) panel = refl

either_panel :
    (test : Bool) (left right : Panel) (entries : List Entry)
    → left.entries ≡ entries
    → right.entries ≡ entries
    → (if test then left else right).entries ≡ entries
either_panel true left right entries h k = h
either_panel false left right entries h k = k

load_usage-entries :
    (place : Place) (replies : UsageAnswers) (panel : Panel)
    → (load_usage place replies panel).entries ≡ panel.entries
unfolding load_usage
load_usage-entries place replies panel =
    either_panel (is_truthy place.user_id && place.admin) _ _ panel.entries
      (elim (Reply-cases replies.overview) [
        | inl (overview, e) ↦
            simp e (apply_overview-entries (usage_of place.user_id overview.users) panel)
        | inr (problem, e) ↦ simp e refl
      ])
      (elim (Reply-cases replies.mine) [
        | inl (mine, e) ↦ simp e refl
        | inr (problem, e) ↦ simp e refl
      ])

-- A navigation may lead anywhere.
abbrev pub Anywhere : Visit → Type 0
Anywhere visit = Unit

module _ (Listed : Entry → Type 0) where
  module _ (t : Translator) (place : Place) where
    reload-Listed :
        (reply : Reply (List Entry)) (replies : UsageAnswers) (panel : Panel)
        → AreListed Listed reply
        → All Listed panel.entries
        → All Listed (reload t place reply replies panel).entries
    unfolding reload browse begin_browse finish_browse fail
    reload-Listed (ok entries) replies panel h k =
        subst (All Listed) (sym (load_usage-entries place replies _)) h
    reload-Listed (err problem) replies panel h k =
        subst (All Listed) (sym (load_usage-entries place replies _)) k

    action_answered :
        (visit : Visit) (done : Reply (Unit {0})) (panel loaded : Panel)
        → All Listed panel.entries
        → All Listed loaded.entries
        → All Listed
            (elim done as (λ _. Panel × Bool) [
              | ok _ ↦ (loaded, true)
              | err problem ↦ (fail t problem panel, false)
            ]).0.entries
    unfolding fail
    action_answered visit (ok _) panel loaded h k = k
    action_answered visit (err problem) panel loaded h k = h

    action-Listed :
        (visit : Visit) (replies : ActionAnswers) (panel : Panel)
        → AreListed Listed replies.listing
        → All Listed panel.entries
        → All Listed (action t visit.address place replies panel).0.entries
    unfolding action
    action-Listed visit replies panel h k =
        action_answered visit replies.done panel _ k
          (reload-Listed replies.listing replies.usage panel h k)

  stays : (test shown : Bool) → (if test then false else shown) ≡ true → shown ≡ true
  stays true shown h = cc
  stays false shown h = h

  module _ (visit : Visit) where
    receive-IsAimed :
        (answer : Answer) (b : Browser)
        → (Brings Listed) answer
        → IsAimed Listed b
        → IsAimed Listed (receive visit answer b)
    unfolding receive ask_conflict fail succeed
    receive-IsAimed (reloaded reply usage) b h (p, q, r, s) =
        (reload-Listed visit.t (place_of visit) reply usage b.panel h p, q, r, s)
    receive-IsAimed (named replies) b h (p, q, r, s) =
        (action-Listed visit.t (place_of visit) visit replies b.panel h p, q, r, s)
    receive-IsAimed (moved replies) b h (p, q, r, s) = (
      action-Listed visit.t (place_of visit) visit replies b.panel h p,
      q,
      λ e. r (stays _ b.dialogs.move_modal e),
      s,
    )
    receive-IsAimed (deleted replies) b h (p, q, r, s) = (
      action-Listed visit.t (place_of visit) visit replies b.panel h p,
      q,
      r,
      λ e. s (stays _ b.dialogs.delete_modal e),
    )
    receive-IsAimed (asked name) b h aimed = aimed
    receive-IsAimed (under_way tasks) b h aimed = aimed
    receive-IsAimed (upload_failed problem) b h aimed = aimed
    receive-IsAimed (uploads_ended true reply usage) b h (p, q, r, s) =
        (reload-Listed visit.t (place_of visit) reply usage b.panel h p, q, r, s)
    receive-IsAimed (uploads_ended false reply usage) b h (p, q, r, s) =
        (reload-Listed visit.t (place_of visit) reply usage b.panel h p, q, r, s)

    drag_over-IsAimed : (b : Browser) → IsAimed Listed b → IsAimed Listed (drag_over visit b)
    unfolding drag_over
    drag_over-IsAimed b aimed = elim (Bool-cases (may_write visit)) [
      | inl e ↦ rw e aimed
      | inr e ↦ rw e aimed
    ]

    follow_route-IsAimed :
        (name : Text) (b : Browser)
        → IsAimed Listed b
        → IsAimed Listed (follow_route name b).0
          × All (IsHitting Listed visit) (follow_route name b).1
    unfolding follow_route start_reload begin_browse
    follow_route-IsAimed name b aimed = elim (Bool-cases (reloads_for name)) [
      | inl e ↦ rw e (aimed, (tt, tt))
      | inr e ↦ rw e (aimed, tt)
    ]

  Step-IsAimed :
      {cause : Cause} {visit visit' : Visit} {b b' : Browser} {sent : List Sent}
      → Step (Brings Listed) Anywhere cause visit b visit' b' sent
      → IsAimed Listed b
      → IsAimed Listed b' × All (IsHitting Listed visit) sent
  unfolding drag_leave drop_files pick_files take_emitted
  Step-IsAimed (presses {visit} {b} {e} offered) aimed =
      Offers-Only (Keeps Listed visit b aimed) offered (screen-Keeps Listed visit b aimed)
  Step-IsAimed (chooses files) aimed = (aimed, (tt, tt))
  Step-IsAimed (drags {visit} {b}) aimed = (drag_over-IsAimed visit b aimed, tt)
  Step-IsAimed leaves aimed = (aimed, tt)
  Step-IsAimed (emits emitted) aimed = (aimed, tt)
  Step-IsAimed (drops transfer) aimed = (aimed, (tt, tt))
  Step-IsAimed (navigates {visit} {b} route leads) aimed =
      follow_route-IsAimed visit route.name b aimed
  Step-IsAimed (receives {visit} {b} asked_at answer brings) aimed =
      (receive-IsAimed (at_route asked_at visit) answer b brings aimed, tt)

  Reach-IsAimed :
      {visit : Visit} {b : Browser} → Reach (Brings Listed) Anywhere visit b → IsAimed Listed b
  unfolding new_browser start_reload begin_browse
  Reach-IsAimed (mounted visit stored leads) = (tt, tt, λ e. absurd cc, λ e. absurd cc)
  Reach-IsAimed (moves reach step) = (Step-IsAimed step (Reach-IsAimed reach)).0

  -- Whatever a step sends from wherever the view can come to, navigations included: a file that it moves,
  -- copies or deletes is asked for by the path that the name of an entry has in the directory that is
  -- shown then, and that entry is one that the server has listed: it has every property that all entries
  -- of all answers have. Whether it was listed for that directory is not said.
  pub Reach-IsHitting :
      {cause : Cause} {visit visit' : Visit} {b b' : Browser} {sent : List Sent}
      → Reach (Brings Listed) Anywhere visit b
      → Step (Brings Listed) Anywhere cause visit b visit' b' sent
      → All (IsHitting Listed visit) sent
  Reach-IsHitting reach step = (Step-IsAimed step (Reach-IsAimed reach)).1
