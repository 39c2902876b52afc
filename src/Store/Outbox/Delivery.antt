-- ===== src/Store/Outbox/Delivery.antt =====
-- Which calls on the outbox leave a pending intent pending (internal/store/repository.go,
-- forget_instance.go).
use mathlib.Core.Bool.{false≢true}
use subsyncd.Common.{
  ℕ, List, any, Bool, ◌≡◌, ◌==◌, true, ◌&&◌, ◌++◌, Bool-cases, ◌∷◌, false, [], inr, inl, ◌∙◌,
  Option-cases, refl, arith, not, subst, ◌||◌, ◌+◌, take, keep, none, negated, and_left, and_right,
  Option,
}
use subsyncd.Store.Outbox.{
  finish_intent, insert_intent, lease_intents, enqueue_notification, NotificationRequest, drop_key,
  claim_intent, Intent, NotificationCompletion, change_where, free_at, has_key, owned_by,
  new_intent, find_intent, is_owned, renew_notification_lease, enqueue, renew_intent,
  lease_due_notifications, complete_notification, release_notification_lease,
  prune_finished_notifications, valid_request, sort_due, is_due, forget_notifications, of_instance,
}
use subsyncd.Common.Time.{Instant, is_zero, Duration}
use subsyncd.Store.Outbox.Rows.{
  OutboxCall, complete_call, rows_or, apply_call, enqueue_call, lease_call, renew_call,
  release_call, prune_call, forget_call, run_calls,
}
use subsyncd.Common.Text.{String, str_eq}
use subsyncd.Store.Outbox.Sparing.{pending, prune-pending}
use subsyncd.Store.Outbox.Ids.{
  has_id, unique_ids, unique_ids-change_where, any-id-change_where, unique_ids-append,
  unique_ids-keep,
}

-- An update that leaves the id and the due time of a row.
pending-change_where :
    (id : ℕ) (p : Intent → Bool) (f : Intent → Intent)
    → ((r : Intent) → pending id (f r) ≡ pending id r)
    → (rows : List Intent) → any (pending id) (change_where p f rows) ≡ any (pending id) rows
pending-change_where id p f same [] = refl
pending-change_where id p f same (r ∷ rows) = elim (Bool-cases (p r)) [
  | inl y ↦ rw (y, same r, pending-change_where id p f same rows) refl
  | inr n ↦ rw (n, pending-change_where id p f same rows) refl
]

pending-append :
    (id : ℕ) (rows : List Intent) (r : Intent)
    → any (pending id) rows ≡ true
    → any (pending id) (rows ++ r ∷ []) ≡ true
pending-append id [] r h = absurd (false≢true h)
pending-append id (s ∷ rows) r h = ground (arith, pending-append id rows r)

insert-pending :
    (id id' : ℕ) (q : NotificationRequest) (rows : List Intent)
    → any (pending id) rows ≡ true
    → any (pending id) (insert_intent id' q rows).0 ≡ true
unfolding insert_intent
insert-pending id id' q rows h = elim (Bool-cases (any (has_key q.dedupe_key) rows)) [
  | inl y ↦ rw y h
  | inr n ↦ rw n (pending-append id rows (new_intent id' q) h)
]

enqueue-pending :
    (id id' : ℕ) (q : NotificationRequest) (rows : List Intent)
    → any (pending id) rows ≡ true
    → any (pending id) (enqueue_notification id' q rows).0 ≡ true
unfolding enqueue_notification drop_key
enqueue-pending id id' q rows h = elim (Bool-cases q.coalesce) [
  | inr n ↦ rw n (insert-pending id id' q rows h)
  | inl c ↦ elim (Option-cases (find_intent (has_key q.dedupe_key) rows)) [
    | inl e ↦ rw (c, e) (insert-pending id id' q rows h)
    | inr (found, e) ↦ elim (Bool-cases (is_owned found)) [
      | inr f ↦ rw (c, e, f) h
      | inl o ↦
          rw (c, e, o)
            (insert-pending id id' q (change_where (λ r. r.id == found.id) drop_key rows)
              (pending-change_where id (λ r. r.id == found.id) drop_key (λ r. refl) rows ∙ h))
    ]
  ]
]

lease-pending :
    (id : ℕ) (now until : Instant) (jobs : List String) (due base rows : List Intent)
    → any (pending id) base ≡ true
    → any (pending id) rows ≡ true
    → any (pending id) (rows_or base (lease_intents now until jobs due rows)) ≡ true
unfolding lease_intents claim_intent
lease-pending id now until jobs [] base rows b t = t
lease-pending id now until [] (item ∷ due) base rows b t = b
lease-pending id now until (job ∷ jobs) (item ∷ due) base rows b t =
    let rows' = change_where (free_at now item.id) (claim_intent job until) rows in
    let rest = lease-pending id now until jobs due base rows' b (
      pending-change_where id (free_at now item.id) (claim_intent job until) (λ r. refl) rows
      ∙ t) in
    elim (Option-cases (lease_intents now until jobs due rows')) [
      | inl e ↦ rw e b
      | inr (o, e) ↦ rw e (subst (λ x. any (pending id) (rows_or base x) ≡ true) e rest)
    ]

-- A retry leaves every intent pending, and a final completion those of other jobs.
retry-pending :
    (id : ℕ) (clock : Instant) (c : NotificationCompletion) (rows : List Intent)
    → is_zero c.next_attempt_at ≡ false
    → any (pending id) rows ≡ true
    → any (pending id) (change_where (owned_by c.job_id) (finish_intent clock c) rows) ≡ true
unfolding finish_intent
retry-pending id clock c [] z h = h
retry-pending id clock c (r ∷ rows) z h = ground (arith, retry-pending id clock c rows z)

final-pending :
    (id : ℕ) (clock : Instant) (c : NotificationCompletion) (rows : List Intent)
    → any (λ r. r.id == id && owned_by c.job_id r) rows ≡ false
    → any (pending id) rows ≡ true
    → any (pending id) (change_where (owned_by c.job_id) (finish_intent clock c) rows) ≡ true
unfolding finish_intent
final-pending id clock c [] n h = h
final-pending id clock c (r ∷ rows) n h = ground (arith, final-pending id clock c rows)

-- Forgetting an instance leaves the intents of others.
forget-pending :
    (id : ℕ) (instance_of : String → Option String) (name : String) (rows : List Intent)
    → any (λ r. r.id == id && of_instance instance_of name r) rows ≡ false
    → any (pending id) rows ≡ true
    → any (pending id) (forget_notifications instance_of name rows) ≡ true
unfolding forget_notifications
forget-pending id instance_of name [] n h = h
forget-pending id instance_of name (r ∷ rows) n h =
    ground (arith, forget-pending id instance_of name rows)

-- A call gives a new row an id that no row has, as the primary key does, does not finish the intent
-- under a job that holds it, and does not forget its instance.
unfoldable pub spares : ℕ → OutboxCall → List Intent → Bool
spares id (complete_call clock c) rows =
    not (is_zero c.next_attempt_at) || not (any (λ r. r.id == id && owned_by c.job_id r) rows)
spares id (enqueue_call json_valid id' q) rows = not (any (has_id id') rows)
spares id (lease_call jobs now limit duration) rows = true
spares id (renew_call job now duration) rows = true
spares id (release_call job) rows = true
spares id (prune_call before limit) rows = true
spares id (forget_call instance_of name) rows =
    not (any (λ r. r.id == id && of_instance instance_of name r) rows)

unfoldable pub all_spare : ℕ → List OutboxCall → List Intent → Bool
unfolding spares
all_spare id [] rows = true
all_spare id (call ∷ calls) rows =
    let rest = all_spare id calls (apply_call call rows) in spares id call rows && rest

-- What is kept: the ids are unique, and the intent is pending.
abbrev Stays : ℕ → List Intent → Type 0
Stays id rows = (unique_ids rows ≡ true) × (any (pending id) rows ≡ true)

change-Stays :
    (id : ℕ) (p : Intent → Bool) (f : Intent → Intent)
    → ((r : Intent) → (f r).id ≡ r.id)
    → ((r : Intent) → pending id (f r) ≡ pending id r)
    → (rows : List Intent) → Stays id rows
    → Stays id (change_where p f rows)
change-Stays id p f ids same rows (u, h) =
    (unique_ids-change_where p f ids rows ∙ u, pending-change_where id p f same rows ∙ h)

insert-ids :
    (id' : ℕ) (q : NotificationRequest) (rows : List Intent)
    → any (has_id id') rows ≡ false
    → unique_ids rows ≡ true
    → unique_ids (insert_intent id' q rows).0 ≡ true
unfolding insert_intent
insert-ids id' q rows n u = elim (Bool-cases (any (has_key q.dedupe_key) rows)) [
  | inl y ↦ rw y u
  | inr m ↦ rw m (unique_ids-append rows (new_intent id' q) n u)
]

enqueue-ids :
    (id' : ℕ) (q : NotificationRequest) (rows : List Intent)
    → any (has_id id') rows ≡ false
    → unique_ids rows ≡ true
    → unique_ids (enqueue_notification id' q rows).0 ≡ true
unfolding enqueue_notification drop_key
enqueue-ids id' q rows n u = elim (Bool-cases q.coalesce) [
  | inr m ↦ rw m (insert-ids id' q rows n u)
  | inl c ↦ elim (Option-cases (find_intent (has_key q.dedupe_key) rows)) [
    | inl e ↦ rw (c, e) (insert-ids id' q rows n u)
    | inr (found, e) ↦ elim (Bool-cases (is_owned found)) [
      | inr f ↦ rw (c, e, f) u
      | inl o ↦
          rw (c, e, o)
            (insert-ids id' q (change_where (λ r. r.id == found.id) drop_key rows)
              (any-id-change_where id' (λ r. r.id == found.id) drop_key (λ r. refl) rows ∙ n)
              (unique_ids-change_where (λ r. r.id == found.id) drop_key (λ r. refl) rows ∙ u))
    ]
  ]
]

lease-ids :
    (now until : Instant) (jobs : List String) (due base rows : List Intent)
    → unique_ids base ≡ true
    → unique_ids rows ≡ true
    → unique_ids (rows_or base (lease_intents now until jobs due rows)) ≡ true
unfolding lease_intents claim_intent
lease-ids now until jobs [] base rows b t = t
lease-ids now until [] (item ∷ due) base rows b t = b
lease-ids now until (job ∷ jobs) (item ∷ due) base rows b t =
    let rows' = change_where (free_at now item.id) (claim_intent job until) rows in
    let rest = lease-ids now until jobs due base rows' b (
      unique_ids-change_where (free_at now item.id) (claim_intent job until) (λ r. refl) rows
      ∙ t) in
    elim (Option-cases (lease_intents now until jobs due rows')) [
      | inl e ↦ rw e b
      | inr (o, e) ↦ rw e (subst (λ x. unique_ids (rows_or base x) ≡ true) e rest)
    ]

renew-Stays :
    (id : ℕ) (job : String) (now : Instant) (duration : Duration) (rows : List Intent)
    → Stays id rows
    → Stays id (renew_notification_lease job now duration rows).0
unfolding renew_notification_lease renew_intent
renew-Stays id job now duration rows t = elim (Bool-cases (str_eq job "" || duration == 0)) [
  | inl y ↦ rw y t
  | inr n ↦ rw n (
      change-Stays id (owned_by job) (renew_intent (now + duration)) (λ r. refl) (λ r. refl) rows t)
]

finish-id :
    (clock : Instant) (c : NotificationCompletion) (r : Intent)
    → (finish_intent clock c r).id ≡ r.id
unfolding finish_intent
finish-id clock c r = refl

finish-Stays :
    (id : ℕ) (clock : Instant) (c : NotificationCompletion) (rows : List Intent)
    → (not (is_zero c.next_attempt_at) || not (any (λ r. r.id == id && owned_by c.job_id r) rows))
      ≡ true
    → Stays id rows
    → Stays id (change_where (owned_by c.job_id) (finish_intent clock c) rows)
finish-Stays id clock c rows f (u, h) = (
  unique_ids-change_where (owned_by c.job_id) (finish_intent clock c) (finish-id clock c) rows ∙ u,
  elim (Bool-cases (is_zero c.next_attempt_at)) [
    | inr n ↦ retry-pending id clock c rows n h
    | inl z ↦
        final-pending id clock c rows
          (negated (any (λ r. r.id == id && owned_by c.job_id r) rows) (
            subst (λ b. (not b || not (any (λ r. r.id == id && owned_by c.job_id r) rows)) ≡ true) z
              f))
          h
  ],
)

apply_call-Stays :
    (id : ℕ) (call : OutboxCall) (rows : List Intent)
    → spares id call rows ≡ true
    → Stays id rows
    → Stays id (apply_call call rows)
unfolding apply_call spares enqueue lease_due_notifications complete_notification
    release_notification_lease prune_finished_notifications forget_notifications
apply_call-Stays id (enqueue_call json_valid id' q) rows f (u, h) =
    elim (Bool-cases (valid_request json_valid q)) [
      | inr n ↦ rw n (u, h)
      | inl v ↦ rw v (
        enqueue-ids id' q rows (negated (any (has_id id') rows) f) u,
        enqueue-pending id id' q rows h,
      )
    ]
apply_call-Stays id (lease_call jobs now limit duration) rows f (u, h) =
    elim (Bool-cases (limit == 0 || duration == 0)) [
      | inl y ↦ rw y (u, h)
      | inr n ↦ rw n (
        lease-ids now (now + duration) jobs (take limit (sort_due (keep (is_due now) rows))) rows
            rows u u,
        lease-pending id now (now + duration) jobs (take limit (sort_due (keep (is_due now) rows)))
            rows rows h h,
      )
    ]
apply_call-Stays id (renew_call job now duration) rows f t = renew-Stays id job now duration rows t
apply_call-Stays id (complete_call clock c) rows f t = finish-Stays id clock c rows f t
apply_call-Stays id (release_call job) rows f t = elim (Bool-cases (str_eq job "")) [
  | inl y ↦ rw y t
  | inr n ↦ rw n (
      change-Stays id (owned_by job) (λ r. record r { lease_owner = none; lease_until = none })
        (λ r. refl) (λ r. refl) rows t)
]
apply_call-Stays id (prune_call before limit) rows f (u, h) = elim (Bool-cases (limit == 0)) [
  | inl y ↦ rw y (u, h)
  | inr n ↦ rw n (unique_ids-keep _ rows u, prune-pending id before limit rows u h)
]
apply_call-Stays id (forget_call instance_of name) rows f (u, h) = (
  unique_ids-keep _ rows u,
  forget-pending id instance_of name rows
      (negated (any (λ r. r.id == id && of_instance instance_of name r) rows) f) h,
)

-- A pending intent is still pending after every sequence of calls, if the ids are unique, each new
-- row has an id of its own, no final completion comes from a job that holds the intent, and
-- `ForgetInstance` is not called for the instance that its payload names.
pub run_calls-pending :
    (id : ℕ) (calls : List OutboxCall) (rows : List Intent)
    → unique_ids rows ≡ true
    → all_spare id calls rows ≡ true
    → any (pending id) rows ≡ true
    → any (pending id) (run_calls calls rows) ≡ true
unfolding run_calls all_spare
run_calls-pending id [] rows u s h = h
run_calls-pending id (call ∷ calls) rows u s h =
    let (u', h') =
      apply_call-Stays id call rows
        (and_left (spares id call rows) (all_spare id calls (apply_call call rows)) s) (u, h) in
    run_calls-pending id calls (apply_call call rows) u'
      (and_right (spares id call rows) (all_spare id calls (apply_call call rows)) s) h'
