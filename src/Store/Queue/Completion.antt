-- ===== src/Store/Queue/Completion.antt =====
-- `CompleteSearch` (internal/store/repository.go), without the history row that it adds.
use subsyncd.Common.{
  Bool, List, if◌then◌else◌, none, ℕ, not, ◌+◌, ◌||◌, ◌&&◌, false, true, ◌==◌, Option, max, some,
  [], length,
}
use subsyncd.Store.Queue.Resume.{
  current_resume_scope, Repository, encode_resume_providers, decode_search_resume,
}
use subsyncd.Store.Queue.Rows.{
  Media, SearchRow, release_row, no_resume, owned_by, Outcome, valid_search_priority, failed,
  invalid_argument, find_where, lease_not_found, invalid_resume, count_where, done, update_where,
}
use subsyncd.Common.Text.{String}
use subsyncd.Common.Time.{Instant, is_zero}

-- The clock that dates a preserved list without a date is `clock`.
pub record SearchCompletion : Type 0 where
  pub job_id : String
  pub outcome : String
  pub next_attempt_at : Instant
  pub advance_missing_attempt : Bool
  pub advance_upgrade_attempt : Bool
  pub advance_failure_attempt : Bool
  pub reset_missing_attempt : Bool
  pub missing_attempt_floor : ℕ
  pub reset_failure_attempt : Bool
  pub priority : ℕ
  pub resume_providers : List String
  pub resume_route_signature : String
  pub preserve_resume : Bool
  pub resume_saved_at : Instant
  pub preserve_queue_order : Bool
  pub clear_replace_installed : Bool

pub record SearchCompletionResult : Type 0 where
  pub rerun_scheduled : Bool
  pub resume_provider_count : ℕ

-- The three values of a resumed list that are stored.
abbrev pub Resume : Type 0
Resume = List String × String × Instant

abbrev count_of : Bool → ℕ
count_of b = if b then 1 else 0

-- The row of a deleted media file stays terminal.
unfoldable pub complete_deleted_row : SearchRow → SearchRow
complete_deleted_row r = no_resume (
    release_row (record r {
      pending = false;
      last_outcome = "deleted";
      next_attempt_at = 0;
      queue_order = 0;
      replace_installed = false;
    }))

-- `attempt` and `failure_attempt` of a search that was not scheduled anew.
abbrev pub advanced_attempt : SearchCompletion → SearchRow → ℕ
advanced_attempt c r =
    let step = count_of (c.advance_missing_attempt || c.advance_upgrade_attempt) in
    max c.missing_attempt_floor (if c.reset_missing_attempt then step else r.attempt + step)

abbrev pub advanced_failure : SearchCompletion → SearchRow → ℕ
advanced_failure c r =
    if c.reset_failure_attempt then 0 else r.failure_attempt + count_of c.advance_failure_attempt

-- The row of a search that a change scheduled anew under its lease: it keeps that schedule.
unfoldable pub rerun_row : SearchRow → SearchRow
rerun_row r = no_resume (
    release_row (record r {
      pending = true;
      attempt = 0;
      failure_attempt = 0;
      last_outcome = "";
      resume_saved_at = 0;
    }))

unfoldable pub finish_row : SearchCompletion → Resume → SearchRow → SearchRow
finish_row c (providers, signature, saved_at) r = release_row (record r {
  pending = not (is_zero c.next_attempt_at);
  attempt = advanced_attempt c r;
  failure_attempt = advanced_failure c r;
  next_attempt_at = c.next_attempt_at;
  queue_order = if c.preserve_queue_order then r.queue_order else c.next_attempt_at;
  last_outcome = c.outcome;
  priority = if c.priority == 0 then r.priority else c.priority;
  resume_providers = some (if c.preserve_resume then providers else []);
  resume_route_signature = if c.preserve_resume then signature else "";
  resume_saved_at = if c.preserve_resume then saved_at else 0;
  replace_installed = if c.clear_replace_installed then false else r.replace_installed;
})

unfoldable pub complete_row : SearchCompletion → Resume → SearchRow → SearchRow
unfolding rerun_row finish_row
complete_row c resume r = if r.rerun_requested then rerun_row r else finish_row c resume r

-- The list to store: none of it for a deleted media file, a rerun, or another route; `none` is an
-- error.
unfoldable pub preserved_resume :
    Repository → Instant → SearchCompletion → Bool → SearchRow → Option Resume
unfolding current_resume_scope encode_resume_providers decode_search_resume
preserved_resume repo clock c deleted r =
    let keeps =
      c.preserve_resume
      && not deleted
      && not r.rerun_requested
      && current_resume_scope repo r.language r.media_id c.resume_route_signature in
    let encoded = encode_resume_providers repo.is_blank c.resume_providers in
    if not keeps then some ([], "", 0) else elim encoded [
      | none ↦ none
      | some providers ↦ elim (decode_search_resume repo r.language (some providers)) [
        | none ↦ none
        | some _ ↦ some (
          providers,
          c.resume_route_signature,
          if is_zero c.resume_saved_at then clock else c.resume_saved_at,
        )
      ]
    ]

-- The lookup of the lease joins the media row.
abbrev pub is_known : Media → SearchRow → Bool
is_known media r = elim (media r.media_id) [ none ↦ false | some _ ↦ true ]

abbrev pub held_search : Media → String → SearchRow → Bool
held_search media job r = owned_by job r && is_known media r

abbrev pub is_deleted : Media → SearchRow → Bool
is_deleted media r = elim (media r.media_id) [ none ↦ false | some m ↦ m.deleted ]

unfoldable pub complete_search :
    Repository
    → Media
    → Instant
    → SearchCompletion
    → List SearchRow
    → Outcome SearchCompletionResult
unfolding complete_row complete_deleted_row preserved_resume
complete_search repo media clock c rows =
    if not (c.priority == 0) && not (valid_search_priority c.priority)
    then failed invalid_argument
    else elim (find_where (held_search media c.job_id) rows) [
      | none ↦ failed lease_not_found
      | some r ↦
          let deleted = is_deleted media r in
          elim (preserved_resume repo clock c deleted r) [
            | none ↦ failed invalid_resume
            | some resume ↦
                if not (count_where (owned_by c.job_id) rows == 1)
                then failed lease_not_found
                else done
                    (update_where (owned_by c.job_id)
                      (if deleted then complete_deleted_row else complete_row c resume) rows)
                    record {
                      rerun_scheduled = not deleted && r.rerun_requested;
                      resume_provider_count = length resume.0;
                    }
          ]
    ]
