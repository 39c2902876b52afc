-- ===== src/Store/Queue/HeldLeases.antt =====
-- The statements of internal/store that lease searches leave a lease that is in effect and another
-- job's.
use subsyncd.Common.{
  ℕ, List, ◌≡◌, ◌<◌, false, ◌∷◌, Bool-cases, ◌&&◌, inl, not, ◌||◌, Option-cases, ◌==◌, ◌+◌, inr,
  subst, [], refl,
}
use subsyncd.Common.Text.{String, str_eq}
use subsyncd.Common.Time.{Instant, Duration}
use subsyncd.Store.Queue.Completion.{
  complete_search, SearchCompletion, held_search, preserved_resume, is_deleted,
  complete_deleted_row, complete_row,
}
use subsyncd.Store.Queue.Rows.{
  SearchRow, QueueOrder, Media, is_row, update_where, owned_by, lease_free, release_row,
  valid_search_priority, find_where, new_row, missing_priority, count_where,
}
use subsyncd.Store.Queue.Leases.{
  release_search_lease, claim_search, renew_search_lease, claim_row, renew_row, claimable,
}
use subsyncd.Store.Queue.Grants.{
  lease_row, lease_rows, lease_due_searches_except, nothing_in_scope, resume_of, reset_resume,
}
use subsyncd.Store.Queue.Shape.{KeepsKey}
use subsyncd.Store.Queue.Holding.{
  IsHeld, apart-guards, held-owned_by, held-lease_free, false_right, same-guards,
  reset_resume-lease,
}
use subsyncd.Store.Queue.Resume.{Repository}
use subsyncd.Store.Queue.TableLeases.{rows_or}
use subsyncd.Store.Queue.HeldChanges.{update_where-Held, upsert-Held}
use subsyncd.Store.Queue.Due.{PausedRoute, due_searches}
use subsyncd.Store.Queue.History.{rows_after}
use subsyncd.Store.Queue.Keeps.{
  renew_row-key, claim_row-key, reset_resume-key, complete_deleted_row-key, complete_row-key,
}

module _ (id : ℕ) (language job : String) (until : Instant) where
  abbrev Held : List SearchRow → Type 0
  Held = IsHeld id language job until

  pub claim-Held :
      (o : QueueOrder) (media_id : ℕ) (lang other : String) (now : Instant) (lease : Duration)
      (rows : List SearchRow)
      → now < until
      → str_eq job other ≡ false
      → Held rows
      → Held (rows_after rows (claim_search o media_id lang other now lease rows))
  unfolding claim_search
  claim-Held o media_id lang other now lease rows l d h =
      elim (Bool-cases (str_eq other "" || lease == 0)) [
        | inl y ↦ rw y h
        | inr n ↦ rw n (
            upsert-Held id language job until
              (claim_row other (now + lease) (new_row o media_id lang now missing_priority))
              (claimable other now) (claim_row other (now + lease))
              (claim_row-key other (now + lease))
              (apart-guards id language job until (claimable other now)
                (claim_row other (now + lease)) (claim_row-key other (now + lease))
                (λ r k _.
                  rw (held-lease_free job until now r k l, held-owned_by job other until r k d)
                    refl))
              rows h)
      ]

  -- An update of the rows that another job owns.
  pub owned-Held :
      (other : String) (f : SearchRow → SearchRow) (rows : List SearchRow)
      → KeepsKey f
      → str_eq job other ≡ false
      → Held rows
      → Held (update_where (owned_by other) f rows)
  owned-Held other f rows key d h =
      update_where-Held id language job until (owned_by other) f key
        (apart-guards id language job until (owned_by other) f key
          (λ r k _. held-owned_by job other until r k d))
        rows h

  pub renew-Held :
      (other : String) (now : Instant) (duration : Duration) (rows : List SearchRow)
      → str_eq job other ≡ false
      → Held rows
      → Held (renew_search_lease other now duration rows).0
  unfolding renew_search_lease
  renew-Held other now duration rows d h = elim (Bool-cases (str_eq other "" || duration == 0)) [
    | inl y ↦ rw y h
    | inr n ↦
        rw n
          (owned-Held other (renew_row (now + duration)) rows (renew_row-key (now + duration)) d h)
  ]

  pub release-Held :
      (other : String) (rows : List SearchRow)
      → str_eq job other ≡ false
      → Held rows
      → Held (rows_after rows (release_search_lease other rows))
  unfolding release_search_lease
  release-Held other rows d h = elim (Bool-cases (str_eq other "")) [
    | inl y ↦ rw y h
    | inr n ↦ rw n (owned-Held other release_row rows (λ r. (refl, refl)) d h)
  ]

  pub complete-Held :
      (repo : Repository) (media : Media) (clock : Instant) (c : SearchCompletion)
      (rows : List SearchRow)
      → str_eq job c.job_id ≡ false
      → Held rows
      → Held (rows_after rows (complete_search repo media clock c rows))
  unfolding complete_search
  complete-Held repo media clock c rows d h =
      elim (Bool-cases (not (c.priority == 0) && not (valid_search_priority c.priority))) [
        | inl y ↦ rw y h
        | inr v ↦ elim (Option-cases (find_where (held_search media c.job_id) rows)) [
          | inl e ↦ rw (v, e) h
          | inr (r, e) ↦
              elim (Option-cases (preserved_resume repo clock c (is_deleted media r) r)) [
                | inl p ↦ rw (v, e, p) h
                | inr (resume, p) ↦ elim (Bool-cases (count_where (owned_by c.job_id) rows == 1)) [
                  | inr n ↦ rw (v, e, p, n) h
                  | inl o ↦ elim (Bool-cases (is_deleted media r)) [
                    | inl x ↦
                        rw (v, e, p, o, x)
                          (owned-Held c.job_id complete_deleted_row rows complete_deleted_row-key d
                            h)
                    | inr a ↦
                        rw (v, e, p, o, a)
                          (owned-Held c.job_id (complete_row c resume) rows
                            (complete_row-key c resume) d h)
                  ]
                ]
              ]
        ]
      ]

  pub lease_row-Held :
      (repo : Repository) (now end : Instant) (other : String) (r : SearchRow)
      (rows : List SearchRow)
      → now < until
      → Held rows
      → Held (lease_row repo now end other r rows).0
  unfolding lease_row
  lease_row-Held repo now end other r rows l h =
      let take =
        update_where-Held id language job until
          (λ s. is_row r.media_id r.language s && lease_free now s) (claim_row other end)
          (claim_row-key other end)
          (apart-guards id language job until _ (claim_row other end) (claim_row-key other end)
            (λ s k _.
              rw (held-lease_free job until now s k l)
                (false_right (is_row r.media_id r.language s)))) in
      elim (Bool-cases (resume_of repo now r).1) [
        | inr n ↦ rw n (take rows h)
        | inl y ↦ rw y (
            take (update_where (is_row r.media_id r.language) reset_resume rows) (
              update_where-Held id language job until (is_row r.media_id r.language) reset_resume
                reset_resume-key
                (same-guards id language job until _ reset_resume reset_resume-key
                  reset_resume-lease)
                rows h))
      ]

  pub lease_rows-Held :
      (repo : Repository) (now end : Instant) (ids : List String) (due base rows : List SearchRow)
      → now < until
      → Held base
      → Held rows
      → Held (rows_or base (lease_rows repo now end ids due rows))
  unfolding lease_rows
  lease_rows-Held repo now end ids [] base rows l b h = h
  lease_rows-Held repo now end [] (r ∷ due) base rows l b h = b
  lease_rows-Held repo now end (other ∷ ids) (r ∷ due) base rows l b h =
      let rest =
        lease_rows-Held repo now end ids due base (lease_row repo now end other r rows).0 l b
          (lease_row-Held repo now end other r rows l h) in
      elim (Option-cases
        (lease_rows repo now end ids due (lease_row repo now end other r rows).0)) [
          | inl e ↦ rw e b
          | inr (o, e) ↦ rw e (subst (λ x. Held (rows_or base x)) e rest)
        ]

  pub lease_due-Held :
      (repo : Repository) (media : Media) (ids : List String) (now : Instant) (limit : ℕ)
      (duration : Duration) (paused : List PausedRoute) (rows : List SearchRow)
      → now < until
      → Held rows
      → Held (
          rows_after rows (lease_due_searches_except repo media ids now limit duration paused rows))
  unfolding lease_due_searches_except
  lease_due-Held repo media ids now limit duration paused rows l h =
      let due = due_searches repo media now limit paused rows in
      let rest = lease_rows-Held repo now (now + duration) ids due rows rows l h h in
      elim (Bool-cases (limit == 0 || duration == 0)) [
        | inl y ↦ rw y h
        | inr n ↦ elim (Bool-cases (nothing_in_scope repo)) [
          | inl y ↦ rw (n, y) h
          | inr s ↦ elim (Option-cases (lease_rows repo now (now + duration) ids due rows)) [
            | inl e ↦ rw (n, s, e) h
            | inr (o, e) ↦ rw (n, s, e) (subst (λ x. Held (rows_or rows x)) e rest)
          ]
        ]
      ]
