-- ===== src/Store/Queue/Leases.antt =====
-- How the lease of one search is claimed, renewed and given up (internal/store/search_claim.go,
-- lease_release.go, repository.go).
use subsyncd.Common.Text.{String, str_eq}
use subsyncd.Common.Time.{Instant, Duration}
use subsyncd.Store.Queue.Rows.{
  QueueOrder, SearchRow, Outcome, lease_free, QueueError, failed, owned_by, invalid_argument, done,
  update_where, new_row, count_where, release_row, missing_priority, is_row, lease_not_found,
  upsert,
}
use subsyncd.Common.{
  ℕ, List, some, Option, Bool, false, if◌then◌else◌, ◌||◌, ◌==◌, ◌+◌, none, ◌&&◌, not, any,
}

-- `lease_owner=?, lease_until_ns=?, rerun_requested=0`
unfoldable pub claim_row : String → Instant → SearchRow → SearchRow
claim_row job until r = record r {
  lease_owner = some job;
  lease_until = some until;
  rerun_requested = false;
}

abbrev pub claimable : String → Instant → SearchRow → Bool
claimable job now r = lease_free now r || owned_by job r

-- `ClaimSearch`, and whether it claimed: it did if it changed one row.
unfoldable pub claim_search :
    QueueOrder → ℕ → String → String → Instant → Duration → List SearchRow → Outcome Bool
unfolding claim_row
claim_search o id language job now lease rows =
    if str_eq job "" || lease == 0
    then failed invalid_argument
    else (let new = claim_row job (now + lease) (new_row o id language now missing_priority) in
        let taken = λ (r : SearchRow). is_row id language r && claimable job now r in
        done (upsert new (claimable job now) (claim_row job (now + lease)) rows)
          (not (any (is_row id language) rows) || count_where taken rows == 1))

-- `ReleaseSearchLease`
unfoldable pub release_search_lease : String → List SearchRow → Outcome (Unit {0})
release_search_lease job rows =
    if str_eq job ""
    then failed invalid_argument
    else done (update_where (owned_by job) release_row rows) tt

unfoldable pub renew_row : Instant → SearchRow → SearchRow
renew_row until r = record r { lease_until = some until }

-- `RenewSearchLease`: where it did not renew just one row, it reports so, with the rows as the
-- statement left them.
unfoldable pub renew_search_lease :
    String → Instant → Duration → List SearchRow → List SearchRow × Option QueueError
unfolding renew_row
renew_search_lease job now duration rows =
    if str_eq job "" || duration == 0 then (rows, some invalid_argument) else (
      update_where (owned_by job) (renew_row (now + duration)) rows,
      if count_where (owned_by job) rows == 1 then none else some lease_not_found,
    )
