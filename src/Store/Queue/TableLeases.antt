-- ===== src/Store/Queue/TableLeases.antt =====
-- The statements of internal/store that lease searches keep a well-formed table.
use subsyncd.Common.{
  List, ℕ, Option, none, ◌∷◌, Option-cases, Bool-cases, some, ◌&&◌, ◌≡◌, inl, not, ◌+◌, true, inr,
  ◌==◌, ◌||◌, arith, subst, [], refl,
}
use subsyncd.Store.Queue.Leases.{
  renew_search_lease, claim_row, claim_search, release_search_lease, renew_row, claimable,
}
use subsyncd.Store.Queue.Grants.{
  lease_rows, lease_row, lease_due_searches_except, nothing_in_scope, resume_of, reset_resume,
}
use subsyncd.Store.Queue.Completion.{
  complete_search, SearchCompletion, held_search, preserved_resume, is_deleted,
  complete_deleted_row, complete_row,
}
use subsyncd.Store.Queue.Rows.{
  QueueOrder, SearchRow, Media, new_row, missing_priority, is_row, lease_free,
  valid_search_priority, owned_by, find_where, release_row, update_where, count_where,
}
use subsyncd.Store.Queue.Shape.{shaped, IsTable, update_where-IsTable}
use subsyncd.Common.Text.{String, str_eq}
use subsyncd.Store.Queue.Resume.{Repository}
use subsyncd.Common.Time.{Instant, Duration}
use subsyncd.Store.Queue.History.{rows_after}
use subsyncd.Store.Queue.Due.{PausedRoute, due_searches}
use subsyncd.Store.Queue.Inserts.{upsert-IsTable}
use subsyncd.Store.Queue.Keeps.{
  claim_row-key, claim_row-shape, release_row-shape, renew_row-key, renew_row-shape,
  reset_resume-key, reset_resume-shape, complete_deleted_row-key, complete_deleted_row-shape,
  complete_row-key, complete_row-shape,
}

claim_new-shaped :
    (o : QueueOrder) (id : ℕ) (language job : String) (now until : Instant)
    → shaped (claim_row job until (new_row o id language now missing_priority)) ≡ true
unfolding claim_row shaped
claim_new-shaped o id language job now until = ground arith

pub claim-IsTable :
    (o : QueueOrder) (id : ℕ) (language job : String) (now : Instant) (lease : Duration)
    (rows : List SearchRow)
    → IsTable rows
    → IsTable (rows_after rows (claim_search o id language job now lease rows))
unfolding claim_search
claim-IsTable o id language job now lease rows t = elim (Bool-cases (str_eq job "" || lease == 0)) [
  | inl y ↦ rw y t
  | inr n ↦ rw n (
      upsert-IsTable (claim_row job (now + lease) (new_row o id language now missing_priority))
        (claimable job now) (claim_row job (now + lease))
        (claim_new-shaped o id language job now (now + lease)) (claim_row-key job (now + lease))
        (claim_row-shape job (now + lease) (claimable job now)) rows t)
]

pub complete-IsTable :
    (repo : Repository) (media : Media) (clock : Instant) (c : SearchCompletion)
    (rows : List SearchRow)
    → IsTable rows
    → IsTable (rows_after rows (complete_search repo media clock c rows))
unfolding complete_search
complete-IsTable repo media clock c rows t =
    elim (Bool-cases (not (c.priority == 0) && not (valid_search_priority c.priority))) [
      | inl y ↦ rw y t
      | inr v ↦ elim (Option-cases (find_where (held_search media c.job_id) rows)) [
        | inl e ↦ rw (v, e) t
        | inr (r, e) ↦ elim (Option-cases (preserved_resume repo clock c (is_deleted media r) r)) [
          | inl p ↦ rw (v, e, p) t
          | inr (resume, p) ↦ elim (Bool-cases (count_where (owned_by c.job_id) rows == 1)) [
            | inr n ↦ rw (v, e, p, n) t
            | inl o ↦ elim (Bool-cases (is_deleted media r)) [
              | inl d ↦
                  rw (v, e, p, o, d)
                    (update_where-IsTable (owned_by c.job_id) complete_deleted_row
                      complete_deleted_row-key (complete_deleted_row-shape (owned_by c.job_id)) rows
                      t)
              | inr a ↦
                  rw (v, e, p, o, a)
                    (update_where-IsTable (owned_by c.job_id) (complete_row c resume)
                      (complete_row-key c resume)
                      (complete_row-shape c resume (owned_by c.job_id) v) rows t)
            ]
          ]
        ]
      ]
    ]

lease_row-IsTable :
    (repo : Repository) (now until : Instant) (job : String) (r : SearchRow) (rows : List SearchRow)
    → IsTable rows
    → IsTable (lease_row repo now until job r rows).0
unfolding lease_row
lease_row-IsTable repo now until job r rows t =
    let take =
      update_where-IsTable (λ s. is_row r.media_id r.language s && lease_free now s)
        (claim_row job until) (claim_row-key job until)
        (claim_row-shape job until (λ s. is_row r.media_id r.language s && lease_free now s)) in
    elim (Bool-cases (resume_of repo now r).1) [
      | inr n ↦ rw n (take rows t)
      | inl y ↦ rw y (
          take (update_where (is_row r.media_id r.language) reset_resume rows) (
            update_where-IsTable (is_row r.media_id r.language) reset_resume reset_resume-key
              (reset_resume-shape (is_row r.media_id r.language)) rows t))
    ]

-- The table after the loop: the one before it, where it fails.
abbrev pub rows_or : {A : Type 0} → List SearchRow → Option (List SearchRow × A) → List SearchRow
rows_or rows o = elim o [ none ↦ rows | some (rows', _) ↦ rows' ]

lease_rows-IsTable :
    (repo : Repository) (now until : Instant) (ids : List String) (due base rows : List SearchRow)
    → IsTable base
    → IsTable rows
    → IsTable (rows_or base (lease_rows repo now until ids due rows))
unfolding lease_rows
lease_rows-IsTable repo now until ids [] base rows b t = t
lease_rows-IsTable repo now until [] (r ∷ due) base rows b t = b
lease_rows-IsTable repo now until (job ∷ ids) (r ∷ due) base rows b t =
    let rest =
      lease_rows-IsTable repo now until ids due base (lease_row repo now until job r rows).0 b
        (lease_row-IsTable repo now until job r rows t) in
    elim (Option-cases
      (lease_rows repo now until ids due (lease_row repo now until job r rows).0)) [
        | inl e ↦ rw e b
        | inr (o, e) ↦ rw e (subst (λ x. IsTable (rows_or base x)) e rest)
      ]

pub lease_due-IsTable :
    (repo : Repository) (media : Media) (ids : List String) (now : Instant) (limit : ℕ)
    (duration : Duration) (paused : List PausedRoute) (rows : List SearchRow)
    → IsTable rows
    → IsTable
        (rows_after rows (lease_due_searches_except repo media ids now limit duration paused rows))
unfolding lease_due_searches_except
lease_due-IsTable repo media ids now limit duration paused rows t =
    let due = due_searches repo media now limit paused rows in
    let rest = lease_rows-IsTable repo now (now + duration) ids due rows rows t t in
    elim (Bool-cases (limit == 0 || duration == 0)) [
      | inl y ↦ rw y t
      | inr n ↦ elim (Bool-cases (nothing_in_scope repo)) [
        | inl y ↦ rw (n, y) t
        | inr s ↦ elim (Option-cases (lease_rows repo now (now + duration) ids due rows)) [
          | inl e ↦ rw (n, s, e) t
          | inr (o, e) ↦ rw (n, s, e) (subst (λ x. IsTable (rows_or rows x)) e rest)
        ]
      ]
    ]

pub renew-IsTable :
    (job : String) (now : Instant) (duration : Duration) (rows : List SearchRow)
    → IsTable rows
    → IsTable (renew_search_lease job now duration rows).0
unfolding renew_search_lease
renew-IsTable job now duration rows t = elim (Bool-cases (str_eq job "" || duration == 0)) [
  | inl y ↦ rw y t
  | inr n ↦ rw n (
      update_where-IsTable (owned_by job) (renew_row (now + duration))
        (renew_row-key (now + duration)) (renew_row-shape job (now + duration)) rows t)
]

pub release-IsTable :
    (job : String) (rows : List SearchRow)
    → IsTable rows
    → IsTable (rows_after rows (release_search_lease job rows))
unfolding release_search_lease
release-IsTable job rows t = elim (Bool-cases (str_eq job "")) [
  | inl y ↦ rw y t
  | inr n ↦ rw n (
      update_where-IsTable (owned_by job) release_row (λ r. (refl, refl))
        (release_row-shape (owned_by job)) rows t)
]
