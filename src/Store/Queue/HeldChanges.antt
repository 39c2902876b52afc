-- ===== src/Store/Queue/HeldChanges.antt =====
-- The statements of internal/store that queue a search, or change its schedule, leave a lease that is
-- in effect.
use subsyncd.Common.{
  ℕ, List, Bool, ◌<◌, Option, ◌∷◌, ◌==◌, ◌≡◌, [], Bool-cases, true, false, inr, inl, Option-cases,
  refl, ◌||◌, ◌∙◌, not, some, ◌+◌, none, ◌&&◌,
}
use subsyncd.Common.Text.{String, str_eq}
use subsyncd.Common.Time.{Instant, Duration, is_zero}
use subsyncd.Store.Queue.Changes.{
  record_user_rejection, schedule_media_search, ensure_upgrade_search, clear_search_resume,
  delete_searches, retry_throttled_searches, disarm_replacement, settle_pending_search,
  schedule_row, delete_row, schedule_unsupported_row, settle_row, reject_row, complete_new,
  upgrade_row,
}
use subsyncd.Store.Queue.Rows.{
  SearchRow, Media, QueueOrder, is_row, no_resume, valid_search_priority, update_where, upsert,
  new_row, upgrade_priority, unsupported_multi_episode,
}
use subsyncd.Store.Queue.Holding.{
  IsHeld, same-guards, guards, reject_row-guards, apart-guards, new-guards, held-lease_free,
  held-owned_by, false_right, held-is_leased,
}
use subsyncd.Store.Queue.History.{rows_after}
use subsyncd.Store.Queue.Shape.{KeepsKey, KeepsTest, any-update_where, all_rows-update_where}
use subsyncd.Store.Queue.Keeps.{
  settle_row-key, reject_row-key, schedule_row-key, schedule_unsupported_row-key, upgrade_row-key,
}
use subsyncd.Store.Queue.Inserts.{any-upsert, all_rows-upsert}

module _ (id : ℕ) (language job : String) (until : Instant) where
  abbrev pub Held : List SearchRow → Type 0
  Held = IsHeld id language job until

  pub update_where-Held :
      (p : SearchRow → Bool) (f : SearchRow → SearchRow)
      → KeepsKey f
      → KeepsTest (guards id language job until) p f
      → (rows : List SearchRow) → Held rows
      → Held (update_where p f rows)
  update_where-Held p f key test rows h = record {
    present = any-update_where p f key id language rows ∙ h.present;
    guarded = all_rows-update_where (guards id language job until) p f test rows h.guarded;
  }

  pub upsert-Held :
      (new : SearchRow) (q : SearchRow → Bool) (f : SearchRow → SearchRow)
      → KeepsKey f
      → KeepsTest (guards id language job until) q f
      → (rows : List SearchRow) → Held rows
      → Held (upsert new q f rows)
  upsert-Held new q f key test rows h = record {
    present = any-upsert new q f key id language rows h.present;
    guarded =
        all_rows-upsert (guards id language job until) new q f rows
          (new-guards id language job until new rows h.present) test h.guarded;
  }

  pub schedule-Held :
      (o : QueueOrder) (media_id : ℕ) (lang : String) (at : Instant) (priority : ℕ)
      (unsupported : String) (rows : List SearchRow)
      → Held rows
      → Held (rows_after rows (schedule_media_search o media_id lang at priority unsupported rows))
  unfolding schedule_media_search schedule_row schedule_unsupported_row
  schedule-Held o media_id lang at priority unsupported rows h =
      elim (Bool-cases (valid_search_priority priority)) [
        | inr n ↦ rw n h
        | inl v ↦ elim (Bool-cases (str_eq unsupported "")) [
          | inl e ↦
              rw (v, e)
                (upsert-Held (new_row o media_id lang at priority) (λ _. true)
                  (schedule_row at priority) (schedule_row-key at priority)
                  (same-guards id language job until (λ _. true) (schedule_row at priority)
                    (schedule_row-key at priority) (λ r. (refl, refl)))
                  rows h)
          | inr d ↦ elim (Bool-cases (str_eq unsupported unsupported_multi_episode)) [
            | inr u ↦ rw (v, d, u) h
            | inl k ↦
                rw (v, d, k)
                  (upsert-Held (complete_new unsupported (new_row o media_id lang at priority))
                    (λ _. true) (schedule_unsupported_row at priority unsupported)
                    (schedule_unsupported_row-key at priority unsupported)
                    (same-guards id language job until (λ _. true)
                      (schedule_unsupported_row at priority unsupported)
                      (schedule_unsupported_row-key at priority unsupported) (λ r. (refl, refl)))
                    rows h)
          ]
        ]
      ]

  pub settle-Held :
      (media_id : ℕ) (lang outcome : String) (now : Instant) (owner : String)
      (rows : List SearchRow)
      → now < until
      → str_eq job owner ≡ false
      → Held rows
      → Held (settle_pending_search media_id lang outcome now owner rows)
  unfolding settle_pending_search
  settle-Held media_id lang outcome now owner rows l d h =
      update_where-Held _ (settle_row outcome) (settle_row-key outcome)
        (apart-guards id language job until _ (settle_row outcome) (settle_row-key outcome)
          (λ r k _.
            rw (held-lease_free job until now r k l, held-owned_by job owner until r k d)
              (false_right (is_row media_id lang r && r.pending))))
        rows h

  pub upgrade-Held :
      (media : Media) (o : QueueOrder) (media_id : ℕ) (lang : String) (next : Instant)
      (rows : List SearchRow)
      → Held rows
      → Held (rows_after rows (ensure_upgrade_search media o media_id lang next rows))
  unfolding ensure_upgrade_search
  upgrade-Held media o media_id lang next rows h = elim (Bool-cases (is_zero next)) [
    | inl z ↦ rw z h
    | inr n ↦ elim (Option-cases (media media_id)) [
      | inl e ↦ rw (n, e) h
      | inr (m, e) ↦ elim (Bool-cases (m.deleted || not (str_eq m.unsupported_reason ""))) [
        | inl y ↦ rw (n, e, y) h
        | inr f ↦
            rw (n, e, f)
              (upsert-Held (new_row o media_id lang next upgrade_priority) _ (upgrade_row next)
                (upgrade_row-key next)
                (apart-guards id language job until _ (upgrade_row next) (upgrade_row-key next)
                  (λ r k _. rw (held-is_leased job until r k) refl))
                rows h)
      ]
    ]
  ]

  pub retry-Held :
      (media : Media) (now : Instant) (languages : List String) (rows : List SearchRow)
      → Held rows
      → Held (retry_throttled_searches media now languages rows).0
  unfolding retry_throttled_searches
  retry-Held media now [] rows h = h
  retry-Held media now (l ∷ languages) rows h =
      update_where-Held _ _ (λ r. (refl, refl))
        (same-guards id language job until _ _ (λ r. (refl, refl)) (λ r. (refl, refl))) rows h

  pub reject-Held :
      (o : QueueOrder) (media_id : ℕ) (lang : String) (now : Instant)
      (lease : Option (String × Duration)) (rows : List SearchRow)
      → now < until
      → Held rows
      → Held (record_user_rejection o media_id lang now lease rows)
  unfolding record_user_rejection
  reject-Held o media_id lang now none rows l h =
      upsert-Held _ (λ _. true) (reject_row now none) (reject_row-key now none)
        (reject_row-guards id language job until now none l) rows h
  reject-Held o media_id lang now (some (owner, duration)) rows l h =
      upsert-Held _ (λ _. true) (reject_row now (some (owner, now + duration)))
        (reject_row-key now (some (owner, now + duration)))
        (reject_row-guards id language job until now (some (owner, now + duration)) l) rows h

  pub clear-Held :
      (media_id : ℕ) (lang : String) (rows : List SearchRow)
      → Held rows
      → Held (clear_search_resume media_id lang rows)
  unfolding clear_search_resume
  clear-Held media_id lang rows h =
      update_where-Held (is_row media_id lang) no_resume (λ r. (refl, refl))
        (same-guards id language job until (is_row media_id lang) no_resume (λ r. (refl, refl))
          (λ r. (refl, refl)))
        rows h

  pub disarm-Held :
      (media_id : ℕ) (lang : String) (rows : List SearchRow)
      → Held rows
      → Held (disarm_replacement media_id lang rows)
  unfolding disarm_replacement
  disarm-Held media_id lang rows h =
      update_where-Held (is_row media_id lang) _ (λ r. (refl, refl))
        (same-guards id language job until (is_row media_id lang) _ (λ r. (refl, refl))
          (λ r. (refl, refl)))
        rows h

  pub delete-Held :
      (media_id : ℕ) (rows : List SearchRow) → Held rows → Held (delete_searches media_id rows)
  unfolding delete_searches delete_row
  delete-Held media_id rows h =
      update_where-Held (λ r. r.media_id == media_id) delete_row (λ r. (refl, refl))
        (same-guards id language job until _ delete_row (λ r. (refl, refl)) (λ r. (refl, refl)))
        rows h
