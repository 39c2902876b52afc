-- ===== src/Store/Queue/Lock.antt =====
-- What the leases of internal/store promise: each search is a lock with a lease, and a call for one
-- search, or for the searches of one job, is a step on the locks alone.
use subsyncd.Common.{
  Bool, Option, ℕ, List, if◌then◌else◌, ◌∷◌, none, [], some, ◌==◌, false, true, ◌||◌, ◌&&◌, leb,
  ◌+◌,
}
use subsyncd.Common.Text.{String, str_eq}
use subsyncd.Store.Queue.Rows.{SearchRow, QueueOrder, Outcome, find_where, is_row, done, failed}
use subsyncd.Common.Time.{Instant, Duration}
use subsyncd.Store.Queue.History.{rows_after}
use subsyncd.Store.Queue.Changes.{schedule_media_search}
use subsyncd.Store.Queue.Leases.{claim_search, renew_search_lease, release_search_lease}

-- A lock is free, or held by a job until a time.
abbrev pub Lock : Type 0
Lock = Option (String × Instant)

abbrev pub Locks : Type 0
Locks = ℕ → String → Lock

abbrev pub lapsed : Instant → Lock → Bool
lapsed now l = elim l [ none ↦ true | some (owner, until) ↦ leb until now ]

abbrev pub owns : String → Lock → Bool
owns job l = elim l [ none ↦ false | some (owner, until) ↦ str_eq owner job ]

-- The calls: `ClaimSearch`, `RenewSearchLease` and `ReleaseSearchLease`, and a change that queues
-- the search again, `scheduleMediaSearchTx`.
pub data LockCall : Type 0 where
  take_lock : QueueOrder → ℕ → String → String → Instant → Duration → LockCall
  extend_lock : String → Instant → Duration → LockCall
  drop_lock : String → LockCall
  queue_again : QueueOrder → ℕ → String → Instant → ℕ → String → LockCall

abbrev pub set_lock : ℕ → String → Lock → Locks → Locks
set_lock id language l locks =
    λ id' language'. if id == id' && str_eq language language' then l else locks id' language'

abbrev pub extended : String → Instant → Lock → Lock
extended job until l = elim l [
  | none ↦ none
  | some (owner, old) ↦ if str_eq owner job then some (owner, until) else some (owner, old)
]

-- What the locks and the caller see of a call.
unfoldable pub lock_step : LockCall → Locks → Locks × Bool
lock_step (take_lock o id language job now lease) locks =
    if str_eq job "" || lease == 0
    then (locks, false)
    else if lapsed now (locks id language) || owns job (locks id language)
    then (set_lock id language (some (job, now + lease)) locks, true)
    else (locks, false)
lock_step (extend_lock job now duration) locks =
    if str_eq job "" || duration == 0
    then (locks, false)
    else (λ id language. extended job (now + duration) (locks id language), false)
lock_step (drop_lock job) locks =
    if str_eq job ""
    then (locks, false)
    else (λ id language. if owns job (locks id language) then none else locks id language, false)
lock_step (queue_again o id language at priority unsupported) locks = (locks, false)

abbrev pub claim_answer : List SearchRow → Outcome Bool → List SearchRow × Bool
claim_answer rows (done rows' claimed) = (rows', claimed)
claim_answer rows (failed _) = (rows, false)

-- The same call on the table, and whether it claimed a search.
unfoldable pub table_step : LockCall → List SearchRow → List SearchRow × Bool
table_step (take_lock o id language job now lease) rows =
    claim_answer rows (claim_search o id language job now lease rows)
table_step (extend_lock job now duration) rows =
    ((renew_search_lease job now duration rows).0, false)
table_step (drop_lock job) rows = (rows_after rows (release_search_lease job rows), false)
table_step (queue_again o id language at priority unsupported) rows =
    (rows_after rows (schedule_media_search o id language at priority unsupported rows), false)

-- The answers of a sequence of calls.
unfoldable pub lock_run : List LockCall → Locks → List Bool
unfolding lock_step
lock_run [] locks = []
lock_run (call ∷ calls) locks = (lock_step call locks).1 ∷ lock_run calls (lock_step call locks).0

unfoldable pub table_run : List LockCall → List SearchRow → List Bool
unfolding table_step
table_run [] rows = []
table_run (call ∷ calls) rows = (table_step call rows).1 ∷ table_run calls (table_step call rows).0

-- The lock that a row stands for, and the table.
abbrev pub lock : SearchRow → Lock
lock r = elim r.lease_owner [
  | none ↦ none
  | some owner ↦ elim r.lease_until [ none ↦ none | some until ↦ some (owner, until) ]
]

abbrev pub lock_of : Option SearchRow → Lock
lock_of o = elim o [ none ↦ none | some r ↦ lock r ]

abbrev pub locks_of : List SearchRow → Locks
locks_of rows = λ id language. lock_of (find_where (is_row id language) rows)
