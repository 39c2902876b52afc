-- ===== src/Store/Queue/Tables.antt =====
-- The table of searches stays well formed through every call of internal/store that writes it.
use subsyncd.Store.Queue.History.{
  apply_change, run_changes, Change, schedule, upsert_state, settle, clear_resume, upgrade,
  retry_throttled, reject, disarm, delete, claim, renew, release, lease_due, complete, clear_media,
  replace_media, rank_instances, reorder, backfill, forget,
}
use subsyncd.Store.Queue.Resume.{Repository}
use subsyncd.Store.Queue.Rows.{Media, SearchRow}
use subsyncd.Common.{List, ◌∷◌, []}
use subsyncd.Store.Queue.Shape.{IsTable}
use subsyncd.Store.Queue.TableChanges.{
  schedule-IsTable, upsert_state-IsTable, settle-IsTable, clear_resume-IsTable, upgrade-IsTable,
  retry-IsTable, reject-IsTable, disarm-IsTable, delete-IsTable,
}
use subsyncd.Store.Queue.TableLeases.{
  claim-IsTable, renew-IsTable, release-IsTable, lease_due-IsTable, complete-IsTable,
}
use subsyncd.Store.Queue.TableInventory.{
  clear_media_resume-IsTable, schedule_replaced_media-IsTable, rank_instances-IsTable,
  reorder_media-IsTable, backfill-IsTable, forget_searches-IsTable,
}

apply_change-IsTable :
    (repo : Repository) (media : Media) (change : Change) (rows : List SearchRow)
    → IsTable rows
    → IsTable (apply_change repo media change rows)
unfolding apply_change
apply_change-IsTable repo media (schedule o id language at priority unsupported) rows t =
    schedule-IsTable o id language at priority unsupported rows t
apply_change-IsTable repo media (upsert_state o id language next priority) rows t =
    upsert_state-IsTable o id language next priority rows t
apply_change-IsTable repo media (settle id language outcome now owner) rows t =
    settle-IsTable id language outcome now owner rows t
apply_change-IsTable repo media (clear_resume id language) rows t =
    clear_resume-IsTable id language rows t
apply_change-IsTable repo media (upgrade o id language next) rows t =
    upgrade-IsTable media o id language next rows t
apply_change-IsTable repo media (retry_throttled now languages) rows t =
    retry-IsTable media now languages rows t
apply_change-IsTable repo media (reject o id language now lease) rows t =
    reject-IsTable o id language now lease rows t
apply_change-IsTable repo media (disarm id language) rows t = disarm-IsTable id language rows t
apply_change-IsTable repo media (delete id) rows t = delete-IsTable id rows t
apply_change-IsTable repo media (claim o id language job now lease) rows t =
    claim-IsTable o id language job now lease rows t
apply_change-IsTable repo media (renew job now duration) rows t =
    renew-IsTable job now duration rows t
apply_change-IsTable repo media (release job) rows t = release-IsTable job rows t
apply_change-IsTable repo media (lease_due ids now limit duration paused) rows t =
    lease_due-IsTable repo media ids now limit duration paused rows t
apply_change-IsTable repo media (complete clock c) rows t =
    complete-IsTable repo media clock c rows t
apply_change-IsTable repo media (clear_media id) rows t = clear_media_resume-IsTable id rows t
apply_change-IsTable repo media (replace_media id installed now) rows t =
    schedule_replaced_media-IsTable id installed now rows t
apply_change-IsTable repo media (rank_instances rank) rows t =
    rank_instances-IsTable media rank rows t
apply_change-IsTable repo media (reorder id o) rows t = reorder_media-IsTable id o rows t
apply_change-IsTable repo media (backfill ids instances languages now) rows t =
    backfill-IsTable media ids instances languages now rows t
apply_change-IsTable repo media (forget name) rows t = forget_searches-IsTable media name rows t

-- Through every sequence of calls, failed ones included, the table has one row for each file and
-- language at most, an owner and an end of a lease only together, a rerun only under a lease, a
-- date only where the search is pending, and one of the three priorities.
pub run_changes-IsTable :
    (repo : Repository) (history : List (Media × Change)) (rows : List SearchRow)
    → IsTable rows
    → IsTable (run_changes repo history rows)
unfolding run_changes
run_changes-IsTable repo [] rows t = t
run_changes-IsTable repo (step ∷ rest) rows t =
    run_changes-IsTable repo rest (apply_change repo step.0 step.1 rows)
      (apply_change-IsTable repo step.0 step.1 rows t)
