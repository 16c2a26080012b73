-- ===== src/Admin/Overview/Template.antt =====
-- web/src/views/OverviewView.vue, lines 52-82: the template, and its events up to their requests.
use easy_webdav.Prelude.{
  ℕ, Bool, true, false, not, List, [], ◌∷◌, ◌++◌, Option, none, some, units, decimal, length, ◌&&◌,
  if◌then◌else◌, ◌==◌,
}
use easy_webdav.Floats.{Floats}
use easy_webdav.Api.Types.{UserUsage, UsageOverview}
use easy_webdav.Format.Size.{format_size}
use easy_webdav.Format.Usage.{usage_percent}
use easy_webdav.Screen.{message, raw, Label, Widget, shows, bar, button, when, for_each}
use easy_webdav.Admin.Fields.{alerts_of}
use easy_webdav.Admin.Overview.{OverviewView, overview_users, total_used, active_users, largest}

pub data OverviewEvent : Type 0 where
  close_error close_notice recalculates : OverviewEvent

-- `overview?.disk.free ? formatSize(…) : t('unavailable')`.
unfoldable pub free_label : Option ℕ → Label
free_label none = message "unavailable" ∷ []
free_label (some free) =
    if free == 0 then message "unavailable" ∷ [] else raw (format_size free) ∷ []

unfoldable pub free_shown : Option UsageOverview → Label
unfolding free_label
free_shown none = free_label none
free_shown (some overview) = free_label overview.free

unfoldable pub metrics : OverviewView → List (Widget OverviewEvent)
metrics view =
    let users = overview_users view.overview in
    shows (message "totalUsers" ∷ raw (decimal (length users)) ∷ [])
    ∷ shows (message "activeUsers" ∷ raw (decimal (active_users users)) ∷ [])
    ∷ shows (message "totalUsed" ∷ raw (format_size (total_used users)) ∷ [])
    ∷ shows (message "diskFree" ∷ free_shown view.overview)
    ∷ []

unfoldable pub usage_line : Floats → UserUsage → List (Widget OverviewEvent)
usage_line floats item =
    shows (raw item.user.username ∷ [])
    ∷ shows (
        raw (format_size item.used)
        ∷ (if item.user.quota == 0
            then []
            else raw (units " / ") ∷ raw (format_size item.user.quota) ∷ []))
    ∷ bar (usage_percent floats item.used item.user.quota)
    ∷ []

unfoldable pub overview_screen : Floats → OverviewView → List (Widget OverviewEvent)
overview_screen floats view =
    let shown = largest (overview_users view.overview) in
    alerts_of view.error view.notice close_error close_notice
    ++ (shows (message "overview" ∷ [])
        ∷ shows (message "overview" ∷ [])
        ∷ button (message "recalculate" ∷ []) (not view.busy) recalculates
        ∷ (metrics view
            ++ (shows (message "largestUsers" ∷ [])
                ∷ (for_each shown (usage_line floats)
                    ++ when (length shown == 0 && not view.loading)
                        (shows (message "empty" ∷ []) ∷ [])))))

-- The view, and whether a recalculation is asked for.
unfoldable pub press_overview : OverviewEvent → OverviewView → OverviewView × Bool
press_overview close_error view = (record view { error = [] }, false)
press_overview close_notice view = (record view { notice = [] }, false)
press_overview recalculates view = (record view { busy = true }, true)
