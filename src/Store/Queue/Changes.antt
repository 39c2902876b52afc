-- ===== src/Store/Queue/Changes.antt =====
-- The statements that queue a search or change its schedule (internal/store/repository.go,
-- upgrade_search.go, user_rejection.go).
use subsyncd.Store.Queue.Rows.{
  Media, QueueOrder, SearchRow, is_leased, no_resume, release_row, Outcome, update_where, is_row,
  lease_free, valid_search_priority, failed, upgrade_priority, count_where, import_priority,
  owned_by, upsert, invalid_argument, done, new_row, valid_unsupported_reason,
}
use subsyncd.Common.Text.{String, str_eq}
use subsyncd.Common.{
  ℕ, List, Bool, false, Option, not, if◌then◌else◌, true, none, ◌&&◌, is_empty, min, some, ◌==◌,
  max, ◌+◌, ◌||◌, ltb, any,
}
use subsyncd.Common.Time.{Instant, Duration, is_zero}

-- `scheduleMediaSearchTx` on a row: a leased row keeps its lease and is to run again.
unfoldable pub schedule_row : Instant → ℕ → SearchRow → SearchRow
schedule_row at priority r = no_resume (record r {
  pending = true;
  attempt = 0;
  failure_attempt = 0;
  next_attempt_at = at;
  queue_order = at;
  last_outcome = "";
  priority = max r.priority priority;
  rerun_requested = is_leased r;
})

-- The same for a file that is not supported: complete, unless a lease has to end first.
unfoldable pub schedule_unsupported_row : Instant → ℕ → String → SearchRow → SearchRow
schedule_unsupported_row at priority reason r =
    let leased = is_leased r in
    no_resume (record r {
      pending = leased;
      attempt = 0;
      failure_attempt = 0;
      next_attempt_at = if leased then at else 0;
      queue_order = if leased then at else 0;
      last_outcome = if leased then "" else reason;
      priority = max r.priority priority;
      rerun_requested = leased;
    })

-- A row that begins complete.
abbrev pub complete_new : String → SearchRow → SearchRow
complete_new reason r = record r {
  pending = false;
  next_attempt_at = 0;
  queue_order = 0;
  last_outcome = reason;
}

-- `scheduleMediaSearchTx`
unfoldable pub schedule_media_search :
    QueueOrder → ℕ → String → Instant → ℕ → String → List SearchRow → Outcome (Unit {0})
unfolding schedule_row schedule_unsupported_row
schedule_media_search o id language at priority unsupported rows =
    if not (valid_search_priority priority)
    then failed invalid_argument
    else if not (valid_unsupported_reason unsupported)
    then failed invalid_argument
    else if str_eq unsupported ""
    then done
        (upsert (new_row o id language at priority) (λ _. true) (schedule_row at priority) rows) tt
    else done
        (upsert (complete_new unsupported (new_row o id language at priority)) (λ _. true)
          (schedule_unsupported_row at priority unsupported) rows)
        tt

unfoldable pub restart_row : Instant → ℕ → SearchRow → SearchRow
restart_row next priority r = no_resume (
    release_row (record r {
      pending = true;
      attempt = 0;
      failure_attempt = 0;
      next_attempt_at = next;
      queue_order = next;
      priority = priority;
    }))

-- `UpsertSearchStateWithPriority`
unfoldable pub upsert_search_state_with_priority :
    QueueOrder → ℕ → String → Instant → ℕ → List SearchRow → Outcome (Unit {0})
unfolding restart_row
upsert_search_state_with_priority o id language next priority rows =
    if not (valid_search_priority priority)
    then failed invalid_argument
    else done
        (upsert (new_row o id language next priority) (λ _. true) (restart_row next priority) rows)
        tt

unfoldable pub settle_row : String → SearchRow → SearchRow
settle_row outcome r = no_resume (
    release_row (record r {
      pending = false;
      attempt = 0;
      failure_attempt = 0;
      next_attempt_at = 0;
      queue_order = 0;
      last_outcome = outcome;
    }))

-- `SettlePendingSearch`
unfoldable pub settle_pending_search :
    ℕ → String → String → Instant → String → List SearchRow → List SearchRow
unfolding settle_row
settle_pending_search id language outcome now owner rows =
    update_where
      (λ r.
        is_row id language r
        && r.pending
        && (lease_free now r || owned_by owner r && not (str_eq owner "") && not r.rerun_requested))
      (settle_row outcome) rows

-- `ClearSearchResume`
unfoldable pub clear_search_resume : ℕ → String → List SearchRow → List SearchRow
clear_search_resume id language rows = update_where (is_row id language) no_resume rows

unfoldable pub upgrade_row : Instant → SearchRow → SearchRow
upgrade_row next r = no_resume (
    if r.pending
    then record r { next_attempt_at = next; queue_order = min r.queue_order next }
    else record r {
      pending = true;
      next_attempt_at = next;
      queue_order = next;
      priority = upgrade_priority;
      attempt = 0;
      failure_attempt = 0;
      last_outcome = "";
      rerun_requested = false;
    })

-- `EnsureUpgradeSearch`: only a row with no lease at all, complete or due later than `next`.
unfoldable pub ensure_upgrade_search :
    Media → QueueOrder → ℕ → String → Instant → List SearchRow → Outcome (Unit {0})
unfolding upgrade_row
ensure_upgrade_search media o id language next rows =
    if is_zero next then failed invalid_argument else elim (media id) [
      | none ↦ done rows tt
      | some m ↦
          if m.deleted || not (str_eq m.unsupported_reason "")
          then done rows tt
          else done
              (upsert (new_row o id language next upgrade_priority)
                (λ r.
                  not (is_leased r)
                  && elim r.lease_until [ none ↦ true | some _ ↦ false ]
                  && (not r.pending || ltb next r.next_attempt_at))
                (upgrade_row next) rows)
              tt
    ]

abbrev pub active : Media → ℕ → Bool
active media id = elim (media id) [ none ↦ false | some m ↦ not m.deleted ]

abbrev pub throttled_due : Media → Instant → List String → SearchRow → Bool
throttled_due media now languages r =
    str_eq r.last_outcome "throttled"
    && lease_free now r
    && (not r.pending || ltb now r.next_attempt_at)
    && any (str_eq r.language) languages
    && active media r.media_id

-- `RetryThrottledSearches`
unfoldable pub retry_throttled_searches :
    Media → Instant → List String → List SearchRow → List SearchRow × ℕ
retry_throttled_searches media now languages rows =
    let p = throttled_due media now languages in
    if is_empty languages then (rows, 0) else (
      update_where p (λ r. record r { pending = true; next_attempt_at = now }) rows,
      count_where p rows,
    )

unfoldable pub reject_row : Instant → Option (String × Instant) → SearchRow → SearchRow
reject_row now lease r =
    let held = not (lease_free now r) in
    record (no_resume r) {
      pending = true;
      attempt = 0;
      failure_attempt = 0;
      next_attempt_at = now;
      queue_order = now;
      priority = import_priority;
      last_outcome = "";
      replace_installed = true;
      resume_saved_at = 0;
      rerun_requested =
          if held then true else elim lease [ some _ ↦ false | none ↦ r.rerun_requested ];
      lease_owner =
          if held
          then r.lease_owner
          else elim lease [ none ↦ r.lease_owner | some (owner, until) ↦ some owner ];
      lease_until =
          if held
          then r.lease_until
          else elim lease [ none ↦ r.lease_until | some (owner, until) ↦ some until ];
    }

-- `RecordUserRejection`, as far as it queues the search; the owner and the duration of its lease
-- come together, or not at all.
unfoldable pub record_user_rejection :
    QueueOrder → ℕ → String → Instant → Option (String × Duration) → List SearchRow → List SearchRow
unfolding reject_row
record_user_rejection o id language now lease rows =
    let held : Option (String × Instant) = elim lease [
      | none ↦ none
      | some (owner, duration) ↦ some (owner, now + duration)
    ] in
    upsert (reject_row now held (new_row o id language now import_priority)) (λ _. true)
      (reject_row now held) rows

-- `ClearUserRejections`, as far as it disarms the replacement.
unfoldable pub disarm_replacement : ℕ → String → List SearchRow → List SearchRow
disarm_replacement id language rows =
    update_where (is_row id language) (λ r. record r { replace_installed = false }) rows

-- The searches of a media row that is deleted: terminal, with their lease left to its owner.
unfoldable pub delete_row : SearchRow → SearchRow
delete_row r = no_resume (record r {
  pending = false;
  last_outcome = "deleted";
  next_attempt_at = 0;
  queue_order = 0;
  rerun_requested = false;
})

unfoldable pub delete_searches : ℕ → List SearchRow → List SearchRow
unfolding delete_row
delete_searches id rows = update_where (λ r. r.media_id == id) delete_row rows
