-- ===== src/Store/Queue/Scenarios.antt =====
-- The theorems on the queue of searches at concrete tables.
use subsyncd.Common.{
  List, ◌+◌, some, false, if◌then◌else◌, ◌≡◌, true, arith, ◌∷◌, [], ltb, refl, none, ◌&&◌, length,
  ◌≤◌, min,
}
use subsyncd.Store.Queue.Completion.{
  SearchCompletion, complete_search, preserved_resume, complete_row,
}
use subsyncd.Store.Queue.Rows.{
  QueueOrder, MediaRow, Media, count_where, SearchRow, QueueError, is_row, new_row,
  missing_priority, import_priority, failed, done, update_where,
}
use subsyncd.Store.Queue.Due.{due_searches, sort_rows, insert_row, is_due, on_route}
use subsyncd.Store.Queue.Leases.{claim_row, renew_search_lease, release_search_lease}
use subsyncd.Store.Queue.Resume.{
  current_resume_scope, Repository, decode_search_resume, encode_resume_providers,
  decode_resume_providers, validate_resume_providers, validate_from, bound_of,
}
use subsyncd.Store.Queue.Exclusion.{is_foreign, all_foreign, run_changes-Held}
use subsyncd.Store.Queue.Lock.{
  table_run, LockCall, lock_run, take_lock, queue_again, locks_of, drop_lock,
}
use subsyncd.Store.Queue.Granting.{Granted}
use subsyncd.Store.Queue.Shape.{shaped, IsTable, unique, all_rows}
use subsyncd.Store.Queue.Holding.{IsHeld, guards, held}
use subsyncd.Store.Queue.Grants.{resume_of, lease_due_searches_except}
use subsyncd.Store.Queue.History.{
  run_changes, Change, rows_after, schedule, claim, lease_due, complete, release,
}
use subsyncd.Store.Queue.Tables.{run_changes-IsTable}
use subsyncd.Store.Queue.Changes.{schedule_media_search}
use subsyncd.Store.Queue.Carried.{resume_of-complete_row}
use subsyncd.Store.Queue.Selection.{answer, lease_due_searches_except-Granted}
use subsyncd.Store.Queue.Ranking.{left_out, sorted, no_better, due_searches-ranked}
use subsyncd.Store.Queue.Refinement.{table_run-refines}
use subsyncd.Common.Text.{str_eq, String}
use subsyncd.Store.Queue.Reruns.{undated, complete_search-schedule}
use subsyncd.Store.Queue.Owners.{complete_search-once}

abbrev sorted_as : QueueOrder
sorted_as = record { rank = 1; title = "dark"; series = 7; season = 1; episode = 2 }

abbrev film : MediaRow
film = record {
  instance_name = "radarr";
  is_episode = false;
  multi_episode = false;
  deleted = false;
  unsupported_reason = "";
}

-- The media rows 1 and 2.
abbrev films : Media
films id = if ltb id 3 then some film else none

abbrev repository : Repository
repository = record {
  search_scope = some ("radarr" ∷ [], "en" ∷ "de" ∷ []);
  resume_routes = none;
  is_blank = λ s. str_eq s "";
  json_length = λ ps. length ps;
  route_signature = λ s id. s;
}

-- A search leased to "job-1" until 50, and one that is due.
abbrev leased_row : SearchRow
leased_row = claim_row "job-1" 50 (new_row sorted_as 1 "en" 10 missing_priority)

abbrev due_row : SearchRow
due_row = new_row sorted_as 2 "de" 15 import_priority

abbrev two_rows : List SearchRow
two_rows = leased_row ∷ due_row ∷ []

two_rows-IsTable : IsTable two_rows
unfolding shaped unique claim_row
two_rows-IsTable = (refl, refl)

abbrev retry_later : SearchCompletion
retry_later = record {
  job_id = "job-1";
  outcome = "no_match";
  next_attempt_at = 90;
  advance_missing_attempt = true;
  advance_upgrade_attempt = false;
  advance_failure_attempt = false;
  reset_missing_attempt = false;
  missing_attempt_floor = 0;
  reset_failure_attempt = true;
  priority = 0;
  resume_providers = "opensubtitles" ∷ [];
  resume_route_signature = "route";
  preserve_resume = true;
  resume_saved_at = 30;
  preserve_queue_order = false;
  clear_replace_installed = false;
}

-- An import of the file arrives, a second job tries to claim the search, and the first completes it.
abbrev busy_day : List (Media × Change)
busy_day =
    (films, schedule sorted_as 1 "en" 20 import_priority "")
    ∷ (films, claim sorted_as 1 "en" "job-2" 25 30)
    ∷ (films, lease_due ("job-3" ∷ []) 30 4 30 [])
    ∷ (films, complete 40 retry_later)
    ∷ []

run_changes-IsTable_example : IsTable (run_changes repository busy_day two_rows)
run_changes-IsTable_example = run_changes-IsTable repository busy_day two_rows two_rows-IsTable

abbrev others : List (Media × Change)
others =
    (films, schedule sorted_as 1 "en" 20 import_priority "")
    ∷ (films, claim sorted_as 1 "en" "job-2" 25 30)
    ∷ (films, lease_due ("job-3" ∷ []) 30 4 30 [])
    ∷ (films, release "job-3")
    ∷ []

leased_IsHeld : IsHeld 1 "en" "job-1" 50 two_rows
unfolding guards held claim_row
leased_IsHeld = record { present = refl; guarded = refl }

others-foreign : all_foreign 1 "en" "job-1" 50 others ≡ true
unfolding is_foreign
others-foreign = refl

run_changes-Held_example : IsHeld 1 "en" "job-1" 50 (run_changes repository others two_rows)
run_changes-Held_example =
    run_changes-Held 1 "en" "job-1" 50 repository others two_rows others-foreign leased_IsHeld

complete_search-schedule_example :
    complete_search repository films 40 retry_later
      (rows_after two_rows (schedule_media_search sorted_as 1 "en" 20 import_priority "" two_rows))
    ≡ done
        (update_where (is_row 1 "en") undated (
          rows_after (rows_after two_rows (release_search_lease "job-1" two_rows)) (
            schedule_media_search sorted_as 1 "en" 20 import_priority ""
              (rows_after two_rows (release_search_lease "job-1" two_rows)))))
        record { rerun_scheduled = true; resume_provider_count = 0 }
unfolding claim_row
complete_search-schedule_example =
    complete_search-schedule repository films 40 retry_later sorted_as 1 "en" 20 import_priority []
      leased_row (due_row ∷ []) refl refl refl refl refl refl refl (refl, refl) (refl, refl)

due_searches-ranked_example :
    (count_where (is_row 2 "de") (due_searches repository films 20 1 [] two_rows)
        + count_where (is_row 2 "de") (left_out repository films 20 1 [] two_rows)
      ≡ count_where (λ r. is_due repository films 20 [] r && is_row 2 "de" r) two_rows)
    × (sorted (due_searches repository films 20 1 [] two_rows) ≡ true)
    × (all_rows
          (λ t. all_rows (no_better t) (left_out repository films 20 1 [] two_rows))
          (due_searches repository films 20 1 [] two_rows)
        ≡ true)
    × (length (due_searches repository films 20 1 [] two_rows)
        ≡ min 1 (count_where (is_due repository films 20 []) two_rows))
due_searches-ranked_example = due_searches-ranked repository films 20 1 [] two_rows (is_row 2 "de")

abbrev one_id : List String
one_id = "job-2" ∷ []

enough_ids : length (due_searches repository films 20 1 [] two_rows) ≤ length one_id
unfolding due_searches sort_rows insert_row is_due on_route claim_row
enough_ids = omega arith

lease_due_searches_except-Granted_example :
    Granted
      (20 + 30)
      (due_searches repository films 20 1 [] two_rows)
      (answer (lease_due_searches_except repository films one_id 20 1 30 [] two_rows))
lease_due_searches_except-Granted_example =
    lease_due_searches_except-Granted repository films one_id 20 1 30 [] two_rows two_rows-IsTable
      (omega arith) (omega arith) refl enough_ids

stored :
    preserved_resume repository 40 retry_later false leased_row
    ≡ some ("opensubtitles" ∷ [], "route", 30)
unfolding preserved_resume decode_search_resume encode_resume_providers current_resume_scope
    decode_resume_providers validate_resume_providers validate_from bound_of claim_row
stored = refl

same_route : current_resume_scope repository "en" 1 "route" ≡ true
unfolding current_resume_scope
same_route = refl

resume_of-complete_row_example :
    resume_of repository 100
      (complete_row retry_later ("opensubtitles" ∷ [], "route", 30) leased_row)
    ≡ (("opensubtitles" ∷ [], "route", 30), false)
unfolding claim_row
resume_of-complete_row_example =
    resume_of-complete_row repository 40 100 retry_later leased_row
      ("opensubtitles" ∷ [], "route", 30) refl refl same_route stored (omega arith) (omega arith)

-- The table after the completion.
abbrev completed_rows : List SearchRow
completed_rows =
    complete_row retry_later ("opensubtitles" ∷ [], "route", 30) leased_row ∷ due_row ∷ []

completes :
    complete_search repository films 40 retry_later two_rows
    ≡ done completed_rows record { rerun_scheduled = false; resume_provider_count = 1 }
unfolding complete_search preserved_resume decode_search_resume encode_resume_providers
    current_resume_scope decode_resume_providers validate_resume_providers validate_from bound_of
    claim_row
completes = refl

complete_search-once_example :
    ((e : QueueError) × (complete_search repository films 60 retry_later completed_rows ≡ failed e))
    × ((e : QueueError) × (renew_search_lease "job-1" 45 30 completed_rows
          ≡ (completed_rows, some e)))
    × (rows_after completed_rows (release_search_lease "job-1" completed_rows) ≡ completed_rows)
complete_search-once_example =
    complete_search-once repository films 40 retry_later two_rows completed_rows
      record { rerun_scheduled = false; resume_provider_count = 1 } 60 retry_later 45 30 completes
      refl

-- A second job claims the search in vain, until the first releases it.
abbrev contended : List LockCall
contended =
    take_lock sorted_as 1 "en" "job-2" 20 30
    ∷ queue_again sorted_as 1 "en" 22 import_priority ""
    ∷ drop_lock "job-1"
    ∷ take_lock sorted_as 1 "en" "job-2" 25 30
    ∷ []

table_run-refines_example : table_run contended two_rows ≡ lock_run contended (locks_of two_rows)
table_run-refines_example = table_run-refines contended two_rows two_rows-IsTable
