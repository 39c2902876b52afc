-- ===== src/Store/Queue/History.antt =====
-- Whatever happens to the table of searches: a call of a method of internal/store that writes it, or
-- one of the statements on it that a larger transaction makes.
use subsyncd.Common.{List, ℕ, Option, ◌∷◌, []}
use subsyncd.Store.Queue.Rows.{QueueOrder, Media, SearchRow, Outcome, done, failed}
use subsyncd.Store.Queue.Resume.{Repository}
use subsyncd.Store.Queue.Changes.{
  schedule_media_search, upsert_search_state_with_priority, settle_pending_search,
  clear_search_resume, ensure_upgrade_search, retry_throttled_searches, record_user_rejection,
  disarm_replacement, delete_searches,
}
use subsyncd.Common.Text.{String}
use subsyncd.Common.Time.{Instant, Duration}
use subsyncd.Store.Queue.Completion.{SearchCompletion, complete_search}
use subsyncd.Store.Queue.Leases.{claim_search, renew_search_lease, release_search_lease}
use subsyncd.Store.Queue.Due.{PausedRoute}
use subsyncd.Store.Queue.Grants.{lease_due_searches_except}
use subsyncd.Store.Queue.Inventory.{
  clear_media_resume, schedule_replaced_media, set_instance_queue_priorities, reorder_media,
  ensure_configured_language_searches, forget_searches,
}

pub data Change : Type 0 where
  schedule : QueueOrder → ℕ → String → Instant → ℕ → String → Change
  upsert_state : QueueOrder → ℕ → String → Instant → ℕ → Change
  settle : ℕ → String → String → Instant → String → Change
  clear_resume : ℕ → String → Change
  upgrade : QueueOrder → ℕ → String → Instant → Change
  retry_throttled : Instant → List String → Change
  reject : QueueOrder → ℕ → String → Instant → Option (String × Duration) → Change
  disarm : ℕ → String → Change
  delete : ℕ → Change
  claim : QueueOrder → ℕ → String → String → Instant → Duration → Change
  renew : String → Instant → Duration → Change
  release : String → Change
  lease_due : List String → Instant → ℕ → Duration → List PausedRoute → Change
  complete : Instant → SearchCompletion → Change
  clear_media : ℕ → Change
  replace_media : ℕ → List String → Instant → Change
  rank_instances : (String → ℕ) → Change
  reorder : ℕ → QueueOrder → Change
  backfill : List (ℕ × QueueOrder) → List String → List String → Instant → Change
  forget : String → Change

-- The rows after a call: those before it where it failed.
abbrev pub rows_after : {A : Type 0} → List SearchRow → Outcome A → List SearchRow
rows_after rows (done rows' _) = rows'
rows_after rows (failed _) = rows

-- The rows after a change, with the policy of the repository and the media rows at that time.
unfoldable pub apply_change : Repository → Media → Change → List SearchRow → List SearchRow
apply_change repo media (schedule o id language at priority unsupported) rows =
    rows_after rows (schedule_media_search o id language at priority unsupported rows)
apply_change repo media (upsert_state o id language next priority) rows =
    rows_after rows (upsert_search_state_with_priority o id language next priority rows)
apply_change repo media (settle id language outcome now owner) rows =
    settle_pending_search id language outcome now owner rows
apply_change repo media (clear_resume id language) rows = clear_search_resume id language rows
apply_change repo media (upgrade o id language next) rows =
    rows_after rows (ensure_upgrade_search media o id language next rows)
apply_change repo media (retry_throttled now languages) rows =
    (retry_throttled_searches media now languages rows).0
apply_change repo media (reject o id language now lease) rows =
    record_user_rejection o id language now lease rows
apply_change repo media (disarm id language) rows = disarm_replacement id language rows
apply_change repo media (delete id) rows = delete_searches id rows
apply_change repo media (claim o id language job now lease) rows =
    rows_after rows (claim_search o id language job now lease rows)
apply_change repo media (renew job now duration) rows = (renew_search_lease job now duration rows).0
apply_change repo media (release job) rows = rows_after rows (release_search_lease job rows)
apply_change repo media (lease_due ids now limit duration paused) rows =
    rows_after rows (lease_due_searches_except repo media ids now limit duration paused rows)
apply_change repo media (complete clock c) rows =
    rows_after rows (complete_search repo media clock c rows)
apply_change repo media (clear_media id) rows = clear_media_resume id rows
apply_change repo media (replace_media id installed now) rows =
    schedule_replaced_media id installed now rows
apply_change repo media (rank_instances rank) rows = set_instance_queue_priorities media rank rows
apply_change repo media (reorder id o) rows = reorder_media id o rows
apply_change repo media (backfill ids instances languages now) rows =
    (ensure_configured_language_searches media ids instances languages now rows).0
apply_change repo media (forget name) rows = forget_searches media name rows

-- A history: the changes in order, each with the media rows at that time.
unfoldable pub run_changes : Repository → List (Media × Change) → List SearchRow → List SearchRow
unfolding apply_change
run_changes repo [] rows = rows
run_changes repo (step ∷ rest) rows = run_changes repo rest (apply_change repo step.0 step.1 rows)
