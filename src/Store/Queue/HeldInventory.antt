-- ===== src/Store/Queue/HeldInventory.antt =====
-- The statements of internal/store on replaced files, ranked instances, configured languages and
-- forgotten instances other than its own leave a search to the job that holds it.
use subsyncd.Common.{
  ℕ, Bool, List, ◌≡◌, Bool-cases, if◌then◌else◌, false, true, any, keep, ◌++◌, ap, inl, refl, ◌∷◌,
  not, ==_iff, inr, [], arith, and_left, subst, ◌==◌, ◌∙◌, ◌&&◌,
}
use subsyncd.Common.Text.{String, str_eq}
use subsyncd.Common.Time.{Instant}
use subsyncd.Store.Queue.Rows.{
  SearchRow, Media, QueueOrder, is_row, MediaRow, no_resume, new_row, missing_priority,
  update_where,
}
use subsyncd.Store.Queue.Inventory.{
  clear_media_resume, schedule_replaced_media, forget_searches, backfill_row,
  set_instance_queue_priorities, reorder_media, ensure_configured_language_searches, again_row,
  in_instance, ensure-keeps, rank_row,
}
use subsyncd.Store.Queue.HeldChanges.{Held, update_where-Held, upsert-Held}
use subsyncd.Store.Queue.Shape.{all_rows}
use subsyncd.Store.Queue.Holding.{same-guards, guards}
use subsyncd.Store.Queue.Changes.{complete_new}

module _ (id : ℕ) (language job : String) (until : Instant) where
  pub clear_media_resume-Held :
      (media_id : ℕ) (rows : List SearchRow)
      → Held id language job until rows
      → Held id language job until (clear_media_resume media_id rows)
  unfolding clear_media_resume
  clear_media_resume-Held media_id rows h =
      update_where-Held id language job until _ no_resume (λ r. (refl, refl))
        (same-guards id language job until _ no_resume (λ r. (refl, refl)) (λ r. (refl, refl))) rows
        h

  pub schedule_replaced_media-Held :
      (media_id : ℕ) (installed : List String) (now : Instant) (rows : List SearchRow)
      → Held id language job until rows
      → Held id language job until (schedule_replaced_media media_id installed now rows)
  unfolding schedule_replaced_media again_row
  schedule_replaced_media-Held media_id installed now rows h =
      update_where-Held id language job until _ (again_row now) (λ r. (refl, refl))
        (same-guards id language job until _ (again_row now) (λ r. (refl, refl))
          (λ r. (refl, refl)))
        rows h

  pub rank_instances-Held :
      (media : Media) (rank : String → ℕ) (rows : List SearchRow)
      → Held id language job until rows
      → Held id language job until (set_instance_queue_priorities media rank rows)
  unfolding set_instance_queue_priorities
  rank_instances-Held media rank rows h =
      update_where-Held id language job until (λ _. true) (rank_row media rank) (λ r. (refl, refl))
        (same-guards id language job until (λ _. true) (rank_row media rank) (λ r. (refl, refl))
          (λ r. (refl, refl)))
        rows h

  pub reorder_media-Held :
      (media_id : ℕ) (o : QueueOrder) (rows : List SearchRow)
      → Held id language job until rows
      → Held id language job until (reorder_media media_id o rows)
  unfolding reorder_media
  reorder_media-Held media_id o rows h =
      update_where-Held id language job until _ _ (λ r. (refl, refl))
        (same-guards id language job until _ _ (λ r. (refl, refl)) (λ r. (refl, refl))) rows h

  all-keep :
      (g p : SearchRow → Bool) (rows : List SearchRow)
      → all_rows g rows ≡ true
      → all_rows g (keep p rows) ≡ true
  all-keep g p [] h = h
  all-keep g p (r ∷ rows) h = ground (arith, all-keep g p rows)

  -- A search whose rows are all kept.
  any-keep :
      (p : SearchRow → Bool)
      → ((r : SearchRow) → is_row id language r ≡ true → p r ≡ true)
      → (rows : List SearchRow) → any (is_row id language) rows ≡ true
      → any (is_row id language) (keep p rows) ≡ true
  any-keep p f [] h = h
  any-keep p f (r ∷ rows) h = elim (Bool-cases (is_row id language r)) [
    | inl y ↦ rw (f r y, y) refl
    | inr n ↦
        let later : any (is_row id language) rows ≡ true =
          subst (λ b. (if b then true else any (is_row id language) rows) ≡ true) n h in
        elim (Bool-cases (p r)) [
          | inl k ↦ rw (k, n) (any-keep p f rows later)
          | inr d ↦ rw d (any-keep p f rows later)
        ]
  ]

  pub forget_searches-Held :
      (media : Media) (name : String) (rows : List SearchRow)
      → in_instance media name id ≡ false
      → Held id language job until rows
      → Held id language job until (forget_searches media name rows)
  unfolding forget_searches
  forget_searches-Held media name rows other h = record {
    present =
        any-keep _
          (λ r y. ap not (
            ap (in_instance media name) (
              (==_iff r.media_id id).0 (and_left (r.media_id == id) (str_eq r.language language) y))
            ∙ other))
          rows h.present;
    guarded = all-keep (guards id language job until) _ rows h.guarded;
  }

  insert-Held :
      (new : SearchRow) (rows : List SearchRow)
      → Held id language job until rows
      → Held id language job until
          (if any (is_row new.media_id new.language) rows then rows else rows ++ new ∷ [])
  insert-Held new rows h = elim (Bool-cases (any (is_row new.media_id new.language) rows)) [
    | inl y ↦ rw y h
    | inr n ↦
        let kept =
          upsert-Held id language job until new (λ _. false) (λ r. r) (λ r. (refl, refl))
            (same-guards id language job until _ (λ r. r) (λ r. (refl, refl)) (λ r. (refl, refl)))
            rows h in
        rw n (
          subst
            (λ (b : Bool). Held id language job until (
              if b
              then update_where (λ r. is_row new.media_id new.language r && false) (λ r. r) rows
              else rows ++ new ∷ []))
            n kept)
  ]

  backfill_row-Held :
      (now : Instant) (o : QueueOrder) (media_id : ℕ) (lang : String) (m : MediaRow)
      (rows : List SearchRow)
      → Held id language job until rows
      → Held id language job until (backfill_row o media_id lang now m rows)
  unfolding backfill_row
  backfill_row-Held now o media_id lang m rows h =
      elim (Bool-cases (str_eq m.unsupported_reason "")) [
        | inl y ↦ rw y (insert-Held (new_row o media_id lang now missing_priority) rows h)
        | inr n ↦ rw n (
            insert-Held
              (complete_new m.unsupported_reason (new_row o media_id lang now missing_priority))
              rows h)
      ]

  pub backfill-Held :
      (media : Media) (ids : List (ℕ × QueueOrder)) (instances languages : List String)
      (now : Instant) (rows : List SearchRow)
      → Held id language job until rows
      → Held id language job until
          (ensure_configured_language_searches media ids instances languages now rows).0
  unfolding ensure_configured_language_searches
  backfill-Held media ids instances languages now rows h =
      ensure-keeps (Held id language job until) media now (backfill_row-Held now) ids instances
        languages rows h
