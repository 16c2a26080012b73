-- ===== src/Admin/Overview.antt =====
-- web/src/views/OverviewView.vue: the totals, and the users that use the most.
pub mod Template
pub mod Largest
use easy_webdav.Prelude.{
  ℕ, ◌+◌, ◌≡◌, refl, Bool, false, ltb, List, [], ◌∷◌, Option, none, some, Text, String, take,
  if◌then◌else◌, arith, true,
}
use easy_webdav.Api.Problem.{Problem, Reply, ok, err}
use easy_webdav.Api.Types.{UserUsage, UsageOverview}
use easy_webdav.Admin.{shown_error}

pub record OverviewView : Type 0 where
  pub overview : Option UsageOverview
  pub error : Text
  pub notice : Text
  pub busy : Bool
  pub loading : Bool

unfoldable pub overview_users : Option UsageOverview → List UserUsage
overview_users none = []
overview_users (some overview) = overview.users

unfoldable pub total_used : List UserUsage → ℕ
total_used [] = 0
total_used (item ∷ users) = item.used + total_used users

unfoldable pub active_users : List UserUsage → ℕ
active_users [] = 0
active_users (item ∷ users) =
    let rest = active_users users in if item.user.disabled then rest else 1 + rest

-- The sort by `right.used - left.used`, which is stable: an item goes before the first that uses no more.
unfoldable pub place_item : UserUsage → List UserUsage → List UserUsage
place_item item [] = item ∷ []
place_item item (first ∷ users) =
    let behind = first ∷ place_item item users in
    if ltb item.used first.used then behind else item ∷ first ∷ users

unfoldable pub by_used : List UserUsage → List UserUsage
by_used [] = []
by_used (item ∷ users) = place_item item (by_used users)

unfoldable pub largest : List UserUsage → List UserUsage
largest users = take 10 (by_used users)

-- `load` up to its request.
unfoldable pub begin_load_overview : OverviewView → OverviewView
begin_load_overview view = record view { loading = true }

module _ (t : String → Text) where
  unfoldable pub fail_overview : Problem → OverviewView → OverviewView
  fail_overview problem view = record view { notice = []; error = shown_error t problem }

  -- `load` from the answer on.
  unfoldable pub finish_load_overview : Reply UsageOverview → OverviewView → OverviewView
  finish_load_overview (ok overview) view = record view {
    overview = some overview;
    error = [];
    loading = false;
  }
  finish_load_overview (err problem) view = record (fail_overview problem view) { loading = false }

  unfoldable pub load_overview : Reply UsageOverview → OverviewView → OverviewView
  load_overview reply view = finish_load_overview reply (begin_load_overview view)

  unfoldable pub recalculate : Reply (Unit {0}) → Reply UsageOverview → OverviewView → OverviewView
  recalculate (err problem) loaded view = record (fail_overview problem view) { busy = false }
  recalculate (ok _) loaded view = record (load_overview loaded view) {
    error = [];
    notice = t "recalculated";
    busy = false;
  }

total_used-place_item :
    (item : UserUsage) (users : List UserUsage)
    → total_used (place_item item users) ≡ item.used + total_used users
unfolding total_used place_item
total_used-place_item item [] = refl
total_used-place_item item (first ∷ users) = ground (arith, total_used-place_item item users)

-- The order changes nothing in the total.
pub total_used-by_used : (users : List UserUsage) → total_used (by_used users) ≡ total_used users
unfolding by_used total_used
total_used-by_used [] = refl
total_used-by_used (item ∷ users) =
    ground (arith, total_used-place_item item (by_used users), total_used-by_used users)
