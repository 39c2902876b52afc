-- ===== src/Store/Queue/Keeps.antt =====
-- Updates of a row in internal/store keep its key, and its shape where they are made.
use subsyncd.Common.{
  ℕ, ◌≡◌, Bool, true, max, arith, Option, not, ◌==◌, ◌&&◌, false, Bool-cases, refl, inl, inr,
}
use subsyncd.Store.Queue.Changes.{
  reject_row, settle_row, upgrade_row, schedule_unsupported_row, schedule_row, restart_row,
  delete_row, complete_new,
}
use subsyncd.Store.Queue.Completion.{
  complete_deleted_row, complete_row, rerun_row, finish_row, SearchCompletion, Resume,
}
use subsyncd.Store.Queue.Shape.{shaped, KeepsShape, KeepsKey}
use subsyncd.Store.Queue.Rows.{
  SearchRow, valid_search_priority, release_row, owned_by, QueueOrder, new_row, no_resume,
}
use subsyncd.Common.Text.{String}
use subsyncd.Common.Time.{Instant}
use subsyncd.Store.Queue.Leases.{renew_row, claim_row}
use subsyncd.Store.Queue.Grants.{reset_resume}

max_valid :
    (p q : ℕ)
    → valid_search_priority p ≡ true
    → valid_search_priority q ≡ true
    → valid_search_priority (max p q) ≡ true
max_valid p q h k = ground arith

pub schedule_row-shape :
    (at : Instant) (priority : ℕ)
    → valid_search_priority priority ≡ true
    → KeepsShape (λ _. true) (schedule_row at priority)
unfolding schedule_row shaped
schedule_row-shape at priority v r h _ = ground (arith, max_valid r.priority priority)

pub schedule_unsupported_row-shape :
    (at : Instant) (priority : ℕ) (reason : String)
    → valid_search_priority priority ≡ true
    → KeepsShape (λ _. true) (schedule_unsupported_row at priority reason)
unfolding schedule_unsupported_row shaped
schedule_unsupported_row-shape at priority reason v r h _ =
    ground (arith, max_valid r.priority priority)

pub restart_row-shape :
    (next : Instant) (priority : ℕ)
    → valid_search_priority priority ≡ true
    → KeepsShape (λ _. true) (restart_row next priority)
unfolding restart_row shaped
restart_row-shape next priority v r h _ = ground arith

pub settle_row-shape : (outcome : String) (p : SearchRow → Bool) → KeepsShape p (settle_row outcome)
unfolding settle_row shaped
settle_row-shape outcome p r h _ = ground arith

pub upgrade_row-shape : (next : Instant) (p : SearchRow → Bool) → KeepsShape p (upgrade_row next)
unfolding upgrade_row shaped
upgrade_row-shape next p r h _ = ground arith

pub reject_row-shape :
    (now : Instant) (lease : Option (String × Instant))
    → KeepsShape (λ _. true) (reject_row now lease)
unfolding reject_row shaped
reject_row-shape now lease r h _ = ground arith

pub delete_row-shape : (p : SearchRow → Bool) → KeepsShape p delete_row
unfolding delete_row shaped
delete_row-shape p r h _ = ground arith

pub claim_row-shape :
    (job : String) (until : Instant) (p : SearchRow → Bool) → KeepsShape p (claim_row job until)
unfolding claim_row shaped
claim_row-shape job until p r h _ = ground arith

pub release_row-shape : (p : SearchRow → Bool) → KeepsShape p release_row
unfolding shaped
release_row-shape p r h _ = ground arith

pub renew_row-shape : (job : String) (until : Instant) → KeepsShape (owned_by job) (renew_row until)
unfolding renew_row shaped
renew_row-shape job until r h o = ground arith

pub complete_deleted_row-shape : (p : SearchRow → Bool) → KeepsShape p complete_deleted_row
unfolding complete_deleted_row shaped
complete_deleted_row-shape p r h _ = ground arith

pub complete_row-shape :
    (c : SearchCompletion) (resume : Resume) (p : SearchRow → Bool)
    → (not (c.priority == 0) && not (valid_search_priority c.priority)) ≡ false
    → KeepsShape p (complete_row c resume)
unfolding complete_row rerun_row finish_row shaped
complete_row-shape c resume p v r h _ = ground arith

pub new_row-shaped :
    (o : QueueOrder) (id : ℕ) (language : String) (at : Instant) (priority : ℕ)
    → valid_search_priority priority ≡ true
    → shaped (new_row o id language at priority) ≡ true
unfolding shaped
new_row-shaped o id language at priority v = ground arith

pub complete_new-shaped :
    (reason : String) (o : QueueOrder) (id : ℕ) (language : String) (at : Instant) (priority : ℕ)
    → valid_search_priority priority ≡ true
    → shaped (complete_new reason (new_row o id language at priority)) ≡ true
unfolding shaped
complete_new-shaped reason o id language at priority v = ground arith

pub schedule_row-key : (at : Instant) (priority : ℕ) → KeepsKey (schedule_row at priority)
unfolding schedule_row
schedule_row-key at priority r = (refl, refl)

pub schedule_unsupported_row-key :
    (at : Instant) (priority : ℕ) (reason : String)
    → KeepsKey (schedule_unsupported_row at priority reason)
unfolding schedule_unsupported_row
schedule_unsupported_row-key at priority reason r = (refl, refl)

pub restart_row-key : (next : Instant) (priority : ℕ) → KeepsKey (restart_row next priority)
unfolding restart_row
restart_row-key next priority r = (refl, refl)

pub settle_row-key : (outcome : String) → KeepsKey (settle_row outcome)
unfolding settle_row
settle_row-key outcome r = (refl, refl)

pub upgrade_row-key : (next : Instant) → KeepsKey (upgrade_row next)
unfolding upgrade_row
upgrade_row-key next r = elim (Bool-cases r.pending) [
  | inl y ↦ rw y (refl, refl)
  | inr n ↦ rw n (refl, refl)
]

pub reject_row-key :
    (now : Instant) (lease : Option (String × Instant)) → KeepsKey (reject_row now lease)
unfolding reject_row
reject_row-key now lease r = (refl, refl)

pub delete_row-key : KeepsKey delete_row
unfolding delete_row
delete_row-key r = (refl, refl)

pub claim_row-key : (job : String) (until : Instant) → KeepsKey (claim_row job until)
unfolding claim_row
claim_row-key job until r = (refl, refl)

pub renew_row-key : (until : Instant) → KeepsKey (renew_row until)
unfolding renew_row
renew_row-key until r = (refl, refl)

pub complete_deleted_row-key : KeepsKey complete_deleted_row
unfolding complete_deleted_row
complete_deleted_row-key r = (refl, refl)

pub complete_row-key : (c : SearchCompletion) (resume : Resume) → KeepsKey (complete_row c resume)
unfolding complete_row rerun_row finish_row
complete_row-key c resume r = elim (Bool-cases r.rerun_requested) [
  | inl y ↦ rw y (refl, refl)
  | inr n ↦ rw n (refl, refl)
]

pub reset_resume-key : KeepsKey reset_resume
unfolding reset_resume
reset_resume-key r = (refl, refl)

pub reset_resume-shape : (p : SearchRow → Bool) → KeepsShape p reset_resume
unfolding reset_resume shaped
reset_resume-shape p r h _ = ground arith

pub no_resume-shape : (p : SearchRow → Bool) → KeepsShape p no_resume
unfolding shaped
no_resume-shape p r h _ = ground arith

pub retry_row-shape :
    (now : Instant) (p : SearchRow → Bool)
    → KeepsShape p (λ r. record r { pending = true; next_attempt_at = now })
unfolding shaped
retry_row-shape now p r h _ = ground arith

pub disarm_row-shape :
    (p : SearchRow → Bool) → KeepsShape p (λ r. record r { replace_installed = false })
unfolding shaped
disarm_row-shape p r h _ = ground arith
