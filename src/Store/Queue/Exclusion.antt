-- ===== src/Store/Queue/Exclusion.antt =====
-- Which calls of internal/store leave the lease of a search to the job that holds it.
use mathlib.Core.Bool.{true≢false}
use subsyncd.Common.{
  ℕ, Bool, not, ltb, List, ◌≡◌, ◌&&◌, true, ◌∷◌, ◌<◌, false, sym, [], arith, ltb→lt, negated,
  and_right, and_left,
}
use subsyncd.Common.Text.{String, str_eq}
use subsyncd.Common.Time.{Instant}
use subsyncd.Store.Queue.History.{
  apply_change, run_changes, Change, schedule, upsert_state, settle, clear_resume, upgrade,
  retry_throttled, reject, disarm, delete, claim, renew, release, lease_due, complete, clear_media,
  replace_media, rank_instances, reorder, backfill, forget,
}
use subsyncd.Store.Queue.Resume.{Repository}
use subsyncd.Store.Queue.Rows.{SearchRow, Media}
use subsyncd.Store.Queue.Holding.{IsHeld}
use subsyncd.Store.Queue.Inventory.{in_instance}
use subsyncd.Store.Queue.HeldChanges.{
  schedule-Held, settle-Held, clear-Held, upgrade-Held, retry-Held, reject-Held, disarm-Held,
  delete-Held,
}
use subsyncd.Store.Queue.HeldLeases.{
  claim-Held, renew-Held, release-Held, lease_due-Held, complete-Held,
}
use subsyncd.Store.Queue.HeldInventory.{
  clear_media_resume-Held, schedule_replaced_media-Held, rank_instances-Held, reorder_media-Held,
  backfill-Held, forget_searches-Held,
}

-- The calls that may come while `job` holds the lease of a search of the file `id` until a time:
-- those that claim leases, that settle a search or that reject a subtitle are made before it, those
-- that claim, settle, renew, release or complete are for another job, and an instance that is
-- forgotten is not that of the file. `UpsertSearchStateWithPriority` is left out, since it restarts
-- a search whoever holds it.
unfoldable pub is_foreign : ℕ → String → Instant → Media → Change → Bool
is_foreign id job until media (schedule o id' language at priority unsupported) = true
is_foreign id job until media (upsert_state o id' language next priority) = false
is_foreign id job until media (settle id' language outcome now owner) =
    ltb now until && not (str_eq job owner)
is_foreign id job until media (clear_resume id' language) = true
is_foreign id job until media (upgrade o id' language next) = true
is_foreign id job until media (retry_throttled now languages) = true
is_foreign id job until media (reject o id' language now lease) = ltb now until
is_foreign id job until media (disarm id' language) = true
is_foreign id job until media (delete id') = true
is_foreign id job until media (claim o id' language other now lease) =
    ltb now until && not (str_eq job other)
is_foreign id job until media (renew other now duration) = not (str_eq job other)
is_foreign id job until media (release other) = not (str_eq job other)
is_foreign id job until media (lease_due ids now limit duration paused) = ltb now until
is_foreign id job until media (complete clock c) = not (str_eq job c.job_id)
is_foreign id job until media (clear_media id') = true
is_foreign id job until media (replace_media id' installed now) = true
is_foreign id job until media (rank_instances rank) = true
is_foreign id job until media (reorder id' o) = true
is_foreign id job until media (backfill ids instances languages now) = true
is_foreign id job until media (forget name) = not (in_instance media name id)

before_of : (m n : ℕ) (b : Bool) → (ltb m n && b) ≡ true → m < n
before_of m n b h = ground arith

other_of : (m n : ℕ) (b : Bool) → (ltb m n && not b) ≡ true → b ≡ false
other_of m n b h = ground arith

module _ (id : ℕ) (language job : String) (until : Instant) where
  abbrev Held : List SearchRow → Type 0
  Held = IsHeld id language job until

  apply_change-Held :
      (repo : Repository) (media : Media) (change : Change) (rows : List SearchRow)
      → is_foreign id job until media change ≡ true
      → Held rows
      → Held (apply_change repo media change rows)
  unfolding apply_change is_foreign
  apply_change-Held repo media (schedule o id' lang at priority unsupported) rows f h =
      schedule-Held id language job until o id' lang at priority unsupported rows h
  apply_change-Held repo media (upsert_state o id' lang next priority) rows f h =
      absurd (true≢false (sym f))
  apply_change-Held repo media (settle id' lang outcome now owner) rows f h =
      settle-Held id language job until id' lang outcome now owner rows (before_of now until _ f)
        (other_of now until _ f) h
  apply_change-Held repo media (clear_resume id' lang) rows f h =
      clear-Held id language job until id' lang rows h
  apply_change-Held repo media (upgrade o id' lang next) rows f h =
      upgrade-Held id language job until media o id' lang next rows h
  apply_change-Held repo media (retry_throttled now languages) rows f h =
      retry-Held id language job until media now languages rows h
  apply_change-Held repo media (reject o id' lang now lease) rows f h =
      reject-Held id language job until o id' lang now lease rows (ltb→lt now until f) h
  apply_change-Held repo media (disarm id' lang) rows f h =
      disarm-Held id language job until id' lang rows h
  apply_change-Held repo media (delete id') rows f h = delete-Held id language job until id' rows h
  apply_change-Held repo media (claim o id' lang other now lease) rows f h =
      claim-Held id language job until o id' lang other now lease rows (before_of now until _ f)
        (other_of now until _ f) h
  apply_change-Held repo media (renew other now duration) rows f h =
      renew-Held id language job until other now duration rows (negated _ f) h
  apply_change-Held repo media (release other) rows f h =
      release-Held id language job until other rows (negated _ f) h
  apply_change-Held repo media (lease_due ids now limit duration paused) rows f h =
      lease_due-Held id language job until repo media ids now limit duration paused rows
        (ltb→lt now until f) h
  apply_change-Held repo media (complete clock c) rows f h =
      complete-Held id language job until repo media clock c rows (negated _ f) h
  apply_change-Held repo media (clear_media id') rows f h =
      clear_media_resume-Held id language job until id' rows h
  apply_change-Held repo media (replace_media id' installed now) rows f h =
      schedule_replaced_media-Held id language job until id' installed now rows h
  apply_change-Held repo media (rank_instances rank) rows f h =
      rank_instances-Held id language job until media rank rows h
  apply_change-Held repo media (reorder id' o) rows f h =
      reorder_media-Held id language job until id' o rows h
  apply_change-Held repo media (backfill ids instances languages now) rows f h =
      backfill-Held id language job until media ids instances languages now rows h
  apply_change-Held repo media (forget name) rows f h =
      forget_searches-Held id language job until media name rows (negated _ f) h

  abbrev pub all_foreign : List (Media × Change) → Bool
  all_foreign [] = true
  all_foreign (step ∷ rest) =
      let later = all_foreign rest in is_foreign id job until step.0 step.1 && later

  -- A search that a job holds until a time stays held by it, to that time at least, through every
  -- sequence of the calls that write the table, if those that claim leases, settle a search or
  -- reject a subtitle come before that time, those that claim, settle, renew, release or complete
  -- are for other jobs, `ForgetInstance` is not called for the instance of the search's file, and
  -- `UpsertSearchStateWithPriority` is not called at all.
  pub run_changes-Held :
      (repo : Repository) (history : List (Media × Change)) (rows : List SearchRow)
      → all_foreign history ≡ true
      → IsHeld id language job until rows
      → IsHeld id language job until (run_changes repo history rows)
  unfolding run_changes
  run_changes-Held repo [] rows f h = h
  run_changes-Held repo (step ∷ rest) rows f h =
      run_changes-Held repo rest (apply_change repo step.0 step.1 rows)
        (and_right (is_foreign id job until step.0 step.1) (all_foreign rest) f)
        (apply_change-Held repo step.0 step.1 rows
          (and_left (is_foreign id job until step.0 step.1) (all_foreign rest) f) h)
