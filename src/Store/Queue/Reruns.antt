-- ===== src/Store/Queue/Reruns.antt =====
-- A change that arrives while a search runs: none is lost (internal/store/repository.go,
-- `scheduleMediaSearchTx` and `CompleteSearch`).
use subsyncd.Store.Queue.Completion.{
  complete_search, SearchCompletion, is_known, preserved_resume, is_deleted, complete_deleted_row,
  complete_row, held_search, rerun_row,
}
use subsyncd.Store.Queue.Changes.{schedule_media_search, schedule_row}
use subsyncd.Store.Queue.Resume.{Repository, current_resume_scope}
use subsyncd.Store.Queue.Rows.{
  QueueOrder, Media, SearchRow, valid_search_priority, is_row, owned_by, done, failed, new_row,
  invalid_resume, release_row, update_where,
}
use subsyncd.Common.{
  Bool, ℕ, List, not, ◌≡◌, ◌==◌, true, ◌&&◌, false, ◌++◌, ◌∷◌, none, refl, some, if◌then◌else◌,
  length, Option-cases, inl, inr, arith, [], ◌∙◌, and_true,
}
use subsyncd.Common.Time.{Instant}
use subsyncd.Common.Text.{String, str_eq}
use subsyncd.Store.Queue.Places.{
  Alone, upsert-at, find_where-at, any_and, count_where-at, update_where-at,
}
use subsyncd.Store.Queue.History.{rows_after}
use subsyncd.Store.Queue.Leases.{release_search_lease}

schedule-at :
    (o : QueueOrder) (id : ℕ) (language : String) (at : Instant) (priority : ℕ)
    (before : List SearchRow) (r : SearchRow) (after : List SearchRow)
    → valid_search_priority priority ≡ true
    → is_row id language r ≡ true
    → Alone (is_row id language) before after
    → schedule_media_search o id language at priority "" (before ++ r ∷ after)
      ≡ done (before ++ schedule_row at priority r ∷ after) tt
unfolding schedule_media_search
schedule-at o id language at priority before r after v k alone =
    rw
      (
        v,
        upsert-at (new_row o id language at priority) (λ _. true) (schedule_row at priority) before
            r after k alone refl,
      )
      refl

complete-at :
    (repo : Repository) (media : Media) (clock : Instant) (c : SearchCompletion)
    (before : List SearchRow) (r : SearchRow) (after : List SearchRow)
    → (not (c.priority == 0) && not (valid_search_priority c.priority)) ≡ false
    → owned_by c.job_id r ≡ true
    → is_known media r ≡ true
    → Alone (owned_by c.job_id) before after
    → complete_search repo media clock c (before ++ r ∷ after)
      ≡ elim (preserved_resume repo clock c (is_deleted media r) r) [
        | none ↦ failed invalid_resume
        | some resume ↦
            done
              (before
                ++ (if is_deleted media r then complete_deleted_row else complete_row c resume) r
                  ∷ after)
              record {
                rerun_scheduled = not (is_deleted media r) && r.rerun_requested;
                resume_provider_count = length resume.0;
              }
      ]
unfolding complete_search
complete-at repo media clock c before r after v o m (b, a) =
    elim (Option-cases (preserved_resume repo clock c (is_deleted media r) r)) [
      | inl e ↦
          rw
            (
              v,
              find_where-at (held_search media c.job_id) r after before
                  (any_and (owned_by c.job_id) (is_known media) before b) (and_true _ _ o m),
              e,
            )
            refl
      | inr (resume, e) ↦
          rw
            (
              v,
              find_where-at (held_search media c.job_id) r after before
                  (any_and (owned_by c.job_id) (is_known media) before b) (and_true _ _ o m),
              e,
              count_where-at (owned_by c.job_id) r after before b a o,
              update_where-at (owned_by c.job_id) r after
                  (if is_deleted media r then complete_deleted_row else complete_row c resume)
                  before b a o,
            )
            refl
    ]

release-at :
    (job : String) (before : List SearchRow) (r : SearchRow) (after : List SearchRow)
    → str_eq job "" ≡ false
    → owned_by job r ≡ true
    → Alone (owned_by job) before after
    → release_search_lease job (before ++ r ∷ after) ≡ done (before ++ release_row r ∷ after) tt
unfolding release_search_lease
release-at job before r after e o (b, a) =
    rw (e, update_where-at (owned_by job) r after release_row before b a o) refl

not_kept : (a b c d : Bool) → c ≡ true → (a && not b && not c && d) ≡ false
not_kept a b c d h = ground arith

preserved-rerun :
    (repo : Repository) (clock : Instant) (c : SearchCompletion) (deleted : Bool) (r : SearchRow)
    → r.rerun_requested ≡ true
    → preserved_resume repo clock c deleted r ≡ some ([], "", 0)
unfolding preserved_resume
preserved-rerun repo clock c deleted r h =
    rw
      (not_kept c.preserve_resume deleted r.rerun_requested
        (current_resume_scope repo r.language r.media_id c.resume_route_signature) h)
      refl

complete_rerun-at :
    (repo : Repository) (media : Media) (clock : Instant) (c : SearchCompletion)
    (before : List SearchRow) (r : SearchRow) (after : List SearchRow)
    → (not (c.priority == 0) && not (valid_search_priority c.priority)) ≡ false
    → owned_by c.job_id r ≡ true
    → is_known media r ≡ true
    → is_deleted media r ≡ false
    → r.rerun_requested ≡ true
    → Alone (owned_by c.job_id) before after
    → complete_search repo media clock c (before ++ r ∷ after)
      ≡ done
          (before ++ rerun_row r ∷ after)
          record { rerun_scheduled = true; resume_provider_count = 0 }
unfolding complete_row
complete_rerun-at repo media clock c before r after v o m d h alone =
    complete-at repo media clock c before r after v o m alone
    ∙ rw (preserved-rerun repo clock c (is_deleted media r) r h, d, h) refl

-- A list that a rerun drops leaves no date.
abbrev pub undated : SearchRow → SearchRow
undated r = record r { resume_saved_at = 0 }

schedule_row-leased :
    (job : String) (at : Instant) (priority : ℕ) (r : SearchRow)
    → owned_by job r ≡ true
    → ((schedule_row at priority r).rerun_requested ≡ true)
unfolding schedule_row
schedule_row-leased job at priority r o = ground arith

-- A change of a media file that arrives while a search of it runs is not lost: when that search
-- completes, with whatever outcome, the table is the one that the change makes of a search that is
-- no longer leased, without the date of a resumed list, and the completion reports a rerun. The
-- file is known, not deleted and supported, and its search is the one that the job owns.
pub complete_search-schedule :
    (repo : Repository) (media : Media) (clock : Instant) (c : SearchCompletion) (o : QueueOrder)
    (id : ℕ) (language : String) (at : Instant) (priority : ℕ) (before : List SearchRow)
    (r : SearchRow) (after : List SearchRow)
    → valid_search_priority priority ≡ true
    → (not (c.priority == 0) && not (valid_search_priority c.priority)) ≡ false
    → str_eq c.job_id "" ≡ false
    → owned_by c.job_id r ≡ true
    → is_row id language r ≡ true
    → is_known media r ≡ true
    → is_deleted media r ≡ false
    → Alone (owned_by c.job_id) before after
    → Alone (is_row id language) before after
    → complete_search repo media clock c (
        rows_after
          (before ++ r ∷ after)
          (schedule_media_search o id language at priority "" (before ++ r ∷ after)))
      ≡ done
          (update_where (is_row id language) undated (
            rows_after
              (rows_after
                (before ++ r ∷ after)
                (release_search_lease c.job_id (before ++ r ∷ after)))
              (schedule_media_search o id language at priority "" (
                rows_after
                  (before ++ r ∷ after)
                  (release_search_lease c.job_id (before ++ r ∷ after))))))
          record { rerun_scheduled = true; resume_provider_count = 0 }
unfolding schedule_row rerun_row
complete_search-schedule repo media clock c o id language at priority before r after v w e own k m d
      alone_job alone_key =
    rw
      (
        schedule-at o id language at priority before r after v k alone_key,
        release-at c.job_id before r after e own alone_job,
        schedule-at o id language at priority before (release_row r) after v k alone_key,
        update_where-at (is_row id language) (schedule_row at priority (release_row r)) after
            undated before alone_key.0 alone_key.1 k,
        complete_rerun-at repo media clock c before (schedule_row at priority r) after w own m d
            (schedule_row-leased c.job_id at priority r own) alone_job,
      )
      refl
