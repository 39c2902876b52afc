-- ===== src/Store/Outbox/Upkeep.antt =====
-- Every call on the outbox (internal/store/repository.go) keeps it well formed.
use subsyncd.Store.Outbox.{
  finish_intent, lease_intents, drop_key, insert_intent, claim_intent, enqueue_notification,
  renew_intent, enqueue, Intent, lease_due_notifications, change_where, NotificationRequest,
  NotificationCompletion, renew_notification_lease, valid_request, owned_by, free_at,
  complete_notification, new_intent, release_notification_lease, find_intent, has_key,
  prune_finished_notifications, is_owned, sort_due, is_due, sort_finished, prunable,
  forget_notifications, of_instance,
}
use subsyncd.Common.Text.{String, str_eq}
use subsyncd.Store.Outbox.Rows.{
  run_calls, apply_call, sound, IsOutbox, OutboxCall, rows_or, enqueue_call, lease_call, renew_call,
  complete_call, release_call, prune_call, forget_call,
}
use subsyncd.Common.{
  ℕ, Bool, List, arith, ◌≡◌, none, ◌==◌, ◌∷◌, true, false, inr, [], inl, if◌then◌else◌, Bool-cases,
  subst, refl, any, sym, Option-cases, ◌||◌, ◌+◌, take, keep, not,
}
use subsyncd.Common.Time.{Instant, is_zero, Duration}
use subsyncd.Store.Outbox.Keys.{
  KeepsSound, change_where-IsOutbox, sound-append, unique-append, keep-IsOutbox,
}

new_intent-sound :
    (id : ℕ) (q : NotificationRequest)
    → (q.next_attempt_at == 0) ≡ false
    → sound (new_intent id q) ≡ true
unfolding sound
new_intent-sound id q due = rw due refl

drop_key-KeepsSound : KeepsSound drop_key
unfolding sound drop_key
drop_key-KeepsSound r h = ground arith

claim-IsOutbox :
    (job : String) (until : Instant) (p : Intent → Bool) (rows : List Intent)
    → IsOutbox rows
    → IsOutbox (change_where p (claim_intent job until) rows)
unfolding claim_intent sound
claim-IsOutbox job until p rows t =
    change_where-IsOutbox p (claim_intent job until) (λ r. inl refl) (λ r h. ground arith) rows t

-- A renewal is made on leased rows.
renew_intent-sound :
    (job : String) (until : Instant) (r : Intent)
    → sound r ≡ true
    → owned_by job r ≡ true
    → sound (renew_intent until r) ≡ true
unfolding renew_intent sound
renew_intent-sound job until r h o = ground arith

renew_intent_same :
    (job : String) (until : Instant) (rows : List Intent)
    → change_where (owned_by job) (renew_intent until) rows
      ≡ change_where (owned_by job) (λ r. if owned_by job r then renew_intent until r else r) rows
renew_intent_same job until [] = refl
renew_intent_same job until (r ∷ rows) = elim (Bool-cases (owned_by job r)) [
  | inl y ↦ rw (y, renew_intent_same job until rows) refl
  | inr n ↦ rw (n, renew_intent_same job until rows) refl
]

renew-IsOutbox :
    (job : String) (until : Instant) (rows : List Intent)
    → IsOutbox rows
    → IsOutbox (change_where (owned_by job) (renew_intent until) rows)
unfolding renew_intent
renew-IsOutbox job until rows t = subst IsOutbox (sym (renew_intent_same job until rows)) (
    change_where-IsOutbox (owned_by job) (λ r. if owned_by job r then renew_intent until r else r)
      (λ r. elim (Bool-cases (owned_by job r)) [
        | inl y ↦ inl (rw y refl)
        | inr n ↦ inl (rw n refl)
      ])
      (λ r h. elim (Bool-cases (owned_by job r)) [
        | inl y ↦ rw y (renew_intent-sound job until r h y)
        | inr n ↦ rw n h
      ])
      rows t)

release-IsOutbox :
    (p : Intent → Bool) (rows : List Intent)
    → IsOutbox rows
    → IsOutbox (change_where p (λ r. record r { lease_owner = none; lease_until = none }) rows)
unfolding sound
release-IsOutbox p rows t =
    change_where-IsOutbox p (λ r. record r { lease_owner = none; lease_until = none })
      (λ r. inl refl) (λ r h. ground arith) rows t

finish-IsOutbox :
    (clock : Instant) (c : NotificationCompletion) (p : Intent → Bool) (rows : List Intent)
    → IsOutbox rows
    → IsOutbox (change_where p (finish_intent clock c) rows)
unfolding finish_intent sound
finish-IsOutbox clock c p rows t =
    change_where-IsOutbox p (finish_intent clock c)
      (λ r. elim (Bool-cases (is_zero c.next_attempt_at)) [
        | inl y ↦ inr (rw y refl)
        | inr n ↦ inl (rw n refl)
      ])
      (λ r h. elim (Bool-cases (is_zero c.next_attempt_at)) [
        | inl y ↦ rw y refl
        | inr n ↦ rw n refl
      ])
      rows t

pub due_request :
    (json_valid : String → Bool) (q : NotificationRequest)
    → valid_request json_valid q ≡ true
    → (q.next_attempt_at == 0) ≡ false
due_request json_valid q v = ground arith

insert-IsOutbox :
    (id : ℕ) (q : NotificationRequest) (rows : List Intent)
    → (q.next_attempt_at == 0) ≡ false
    → IsOutbox rows
    → IsOutbox (insert_intent id q rows).0
unfolding insert_intent
insert-IsOutbox id q rows due (h, u) = elim (Bool-cases (any (has_key q.dedupe_key) rows)) [
  | inl y ↦ rw y (h, u)
  | inr n ↦ rw n (
    sound-append rows (new_intent id q) h (new_intent-sound id q due),
    unique-append rows (new_intent id q) q.dedupe_key refl n u,
  )
]

drop-IsOutbox :
    (p : Intent → Bool) (rows : List Intent)
    → IsOutbox rows
    → IsOutbox (change_where p drop_key rows)
unfolding drop_key
drop-IsOutbox p rows t = change_where-IsOutbox p drop_key (λ r. inr refl) drop_key-KeepsSound rows t

enqueue-IsOutbox :
    (id : ℕ) (q : NotificationRequest) (rows : List Intent)
    → (q.next_attempt_at == 0) ≡ false
    → IsOutbox rows
    → IsOutbox (enqueue_notification id q rows).0
unfolding enqueue_notification
enqueue-IsOutbox id q rows due t = elim (Bool-cases q.coalesce) [
  | inr n ↦ rw n (insert-IsOutbox id q rows due t)
  | inl c ↦ elim (Option-cases (find_intent (has_key q.dedupe_key) rows)) [
    | inl e ↦ rw (c, e) (insert-IsOutbox id q rows due t)
    | inr (found, e) ↦ elim (Bool-cases (is_owned found)) [
      | inr f ↦ rw (c, e, f) t
      | inl o ↦
          rw (c, e, o)
            (insert-IsOutbox id q (change_where (λ r. r.id == found.id) drop_key rows) due
              (drop-IsOutbox (λ r. r.id == found.id) rows t))
    ]
  ]
]

lease_intents-IsOutbox :
    (now until : Instant) (jobs : List String) (due base rows : List Intent)
    → IsOutbox base
    → IsOutbox rows
    → IsOutbox (rows_or base (lease_intents now until jobs due rows))
unfolding lease_intents
lease_intents-IsOutbox now until jobs [] base rows b t = t
lease_intents-IsOutbox now until [] (item ∷ due) base rows b t = b
lease_intents-IsOutbox now until (job ∷ jobs) (item ∷ due) base rows b t =
    let rows' = change_where (free_at now item.id) (claim_intent job until) rows in
    let rest =
      lease_intents-IsOutbox now until jobs due base rows' b
        (claim-IsOutbox job until (free_at now item.id) rows t) in
    elim (Option-cases (lease_intents now until jobs due rows')) [
      | inl e ↦ rw e b
      | inr (o, e) ↦ rw e (subst (λ x. IsOutbox (rows_or base x)) e rest)
    ]

renewed-IsOutbox :
    (job : String) (now : Instant) (duration : Duration) (rows : List Intent)
    → IsOutbox rows
    → IsOutbox (renew_notification_lease job now duration rows).0
unfolding renew_notification_lease
renewed-IsOutbox job now duration rows t = elim (Bool-cases (str_eq job "" || duration == 0)) [
  | inl y ↦ rw y t
  | inr n ↦ rw n (renew-IsOutbox job (now + duration) rows t)
]

apply_call-IsOutbox :
    (call : OutboxCall) (rows : List Intent) → IsOutbox rows → IsOutbox (apply_call call rows)
unfolding apply_call enqueue lease_due_notifications renew_notification_lease complete_notification
    release_notification_lease prune_finished_notifications forget_notifications
apply_call-IsOutbox (enqueue_call json_valid id q) rows t =
    elim (Bool-cases (valid_request json_valid q)) [
      | inr n ↦ rw n t
      | inl v ↦ rw v (enqueue-IsOutbox id q rows (due_request json_valid q v) t)
    ]
apply_call-IsOutbox (lease_call jobs now limit duration) rows t =
    elim (Bool-cases (limit == 0 || duration == 0)) [
      | inl y ↦ rw y t
      | inr n ↦ rw n (
          lease_intents-IsOutbox now (now + duration) jobs
            (take limit (sort_due (keep (is_due now) rows))) rows rows t t)
    ]
apply_call-IsOutbox (renew_call job now duration) rows t = renewed-IsOutbox job now duration rows t
apply_call-IsOutbox (complete_call clock c) rows t =
    finish-IsOutbox clock c (owned_by c.job_id) rows t
apply_call-IsOutbox (release_call job) rows t = elim (Bool-cases (str_eq job "")) [
  | inl y ↦ rw y t
  | inr n ↦ rw n (release-IsOutbox (owned_by job) rows t)
]
apply_call-IsOutbox (prune_call before limit) rows t = elim (Bool-cases (limit == 0)) [
  | inl y ↦ rw y t
  | inr n ↦ rw n (
      keep-IsOutbox
        (λ r. not (
          any (λ (s : Intent). s.id == r.id)
            (take limit (sort_finished (keep (prunable before) rows)))))
        rows t)
]
apply_call-IsOutbox (forget_call instance_of name) rows t =
    keep-IsOutbox (λ r. not (of_instance instance_of name r)) rows t

-- Through every sequence of calls on the outbox no two intents have one dedupe key, the owner and
-- the end of a lease are set together, and an intent is finished exactly when it has a date of that,
-- and then it has no key.
pub run_calls-IsOutbox :
    (calls : List OutboxCall) (rows : List Intent) → IsOutbox rows → IsOutbox (run_calls calls rows)
unfolding run_calls
run_calls-IsOutbox [] rows t = t
run_calls-IsOutbox (call ∷ calls) rows t =
    run_calls-IsOutbox calls (apply_call call rows) (apply_call-IsOutbox call rows t)
