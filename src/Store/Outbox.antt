-- ===== src/Store/Outbox.antt =====
-- The outbox of notifications: the table `notifications` and the methods that change it
-- (internal/store/repository.go, lease_release.go and forget_instance.go).
use Prim.Native.Nat.{Ordering, compare}
use Prim.Native.String.{then as or_then}
use subsyncd.Common.{
  ℕ, List, Bool, none, ◌==◌, ◌∷◌, some, not, false, true, Option, ltb, if◌then◌else◌, [], leb, any,
  ◌+◌, ◌&&◌, ◌||◌, take, keep, ◌++◌,
}
use subsyncd.Common.Text.{String, str_eq}
use subsyncd.Common.Time.{Instant, is_zero, Duration}
mod Rows
mod Keys
mod Upkeep
mod Coalescing
mod Ids
mod Sparing
mod Delivery
mod Pruning
mod Scenarios

pub record Intent : Type 0 where
  pub id : ℕ
  pub notifier : String
  pub payload_json : String
  pub attempt : ℕ
  pub next_attempt_at : Instant
  pub result : String
  pub dedupe_key : Option String
  pub lease_owner : Option String
  pub lease_until : Option Instant
  pub finished_at : Option Instant

pub record NotificationRequest : Type 0 where
  pub notifier : String
  pub dedupe_key : String
  pub payload_json : String
  pub next_attempt_at : Instant
  pub coalesce : Bool

pub record NotificationLease : Type 0 where
  pub id : ℕ
  pub notifier : String
  pub payload_json : String
  pub attempt : ℕ
  pub job_id : String
  pub lease_until : Instant

pub record NotificationCompletion : Type 0 where
  pub job_id : String
  pub result : String
  pub next_attempt_at : Instant
  pub finished_at : Instant

abbrev pub has_key : String → Intent → Bool
has_key key r = elim r.dedupe_key [ none ↦ false | some k ↦ str_eq k key ]

abbrev pub is_owned : Intent → Bool
is_owned r = elim r.lease_owner [ none ↦ false | some _ ↦ true ]

abbrev pub owned_by : String → Intent → Bool
owned_by job r = elim r.lease_owner [ none ↦ false | some owner ↦ str_eq owner job ]

abbrev pub lease_free : Instant → Intent → Bool
lease_free now r = elim r.lease_until [ none ↦ true | some until ↦ leb until now ]

abbrev pub change_where : (Intent → Bool) → (Intent → Intent) → List Intent → List Intent
change_where p f [] = []
change_where p f (r ∷ rows) = (if p r then f r else r) ∷ change_where p f rows

abbrev pub find_intent : (Intent → Bool) → List Intent → Option Intent
find_intent p [] = none
find_intent p (r ∷ rows) = let rest = find_intent p rows in if p r then some r else rest

-- `validateNotificationRequest`; `json_valid` is `json.Valid`.
abbrev pub valid_request : (String → Bool) → NotificationRequest → Bool
valid_request json_valid q =
    not (str_eq q.notifier "")
    && not (str_eq q.dedupe_key "")
    && json_valid q.payload_json
    && not (is_zero q.next_attempt_at)

-- The row that is inserted, under the id that the database gives it.
abbrev pub new_intent : ℕ → NotificationRequest → Intent
new_intent id q = record {
  id = id;
  notifier = q.notifier;
  payload_json = q.payload_json;
  attempt = 0;
  next_attempt_at = q.next_attempt_at;
  result = "";
  dedupe_key = some q.dedupe_key;
  lease_owner = none;
  lease_until = none;
  finished_at = none;
}

-- `INSERT … ON CONFLICT DO NOTHING`, and whether it inserted.
unfoldable pub insert_intent : ℕ → NotificationRequest → List Intent → List Intent × Bool
insert_intent id q rows =
    if any (has_key q.dedupe_key) rows then (rows, false) else (rows ++ new_intent id q ∷ [], true)

unfoldable pub drop_key : Intent → Intent
drop_key r = record r { dedupe_key = none }

-- `enqueueNotification`
unfoldable pub enqueue_notification : ℕ → NotificationRequest → List Intent → List Intent × Bool
unfolding insert_intent drop_key
enqueue_notification id q rows =
    let plain = insert_intent id q rows in
    if not q.coalesce then plain else elim (find_intent (has_key q.dedupe_key) rows) [
      | none ↦ plain
      | some found ↦
          if not (is_owned found)
          then (rows, false)
          else insert_intent id q (change_where (λ r. r.id == found.id) drop_key rows)
    ]

-- `EnqueueNotification`; a request that is not valid is an error.
unfoldable pub enqueue :
    (String → Bool) → ℕ → NotificationRequest → List Intent → Option (List Intent × Bool)
unfolding enqueue_notification
enqueue json_valid id q rows =
    if valid_request json_valid q then some (enqueue_notification id q rows) else none

-- The selection of due notifications and its order.
abbrev pub is_due : Instant → Intent → Bool
is_due now r = ltb 0 r.next_attempt_at && leb r.next_attempt_at now && lease_free now r

abbrev pub insert_due : Intent → List Intent → List Intent
insert_due r [] = r ∷ []
insert_due r (s ∷ rows) =
    let rest = insert_due r rows in
    elim (or_then (compare r.next_attempt_at s.next_attempt_at) (compare r.id s.id)) [
      | Ordering.gt ↦ s ∷ rest
      | _ ↦ r ∷ s ∷ rows
    ]

unfoldable pub sort_due : List Intent → List Intent
sort_due [] = []
sort_due (r ∷ rows) = insert_due r (sort_due rows)

unfoldable pub claim_intent : String → Instant → Intent → Intent
claim_intent job until r = record r { lease_owner = some job; lease_until = some until }

abbrev pub free_at : Instant → ℕ → Intent → Bool
free_at now id r = r.id == id && lease_free now r

abbrev pub count_rows : (Intent → Bool) → List Intent → ℕ
count_rows p [] = 0
count_rows p (r ∷ rows) = (if p r then 1 else 0) + count_rows p rows

-- The loop over the selected rows, with the next answers of `randomID`.
unfoldable pub lease_intents :
    Instant
    → Instant
    → List String
    → List Intent
    → List Intent
    → Option (List Intent × List NotificationLease)
unfolding claim_intent
lease_intents now until jobs [] rows = some (rows, [])
lease_intents now until [] (item ∷ due) rows = none
lease_intents now until (job ∷ jobs) (item ∷ due) rows =
    let claimed = count_rows (free_at now item.id) rows == 1 in
    elim (lease_intents now until jobs due
      (change_where (free_at now item.id) (claim_intent job until) rows)) [
        | none ↦ none
        | some (rows', leases) ↦ some (
          rows',
          if claimed
              then record {
                id = item.id;
                notifier = item.notifier;
                payload_json = item.payload_json;
                attempt = item.attempt;
                job_id = job;
                lease_until = until;
              }
                ∷ leases
              else leases,
        )
      ]

-- `LeaseDueNotifications`; `none` is an error, which leaves the table as it was.
unfoldable pub lease_due_notifications :
    List String
    → Instant
    → ℕ
    → Duration
    → List Intent
    → Option (List Intent × List NotificationLease)
unfolding lease_intents sort_due
lease_due_notifications jobs now limit duration rows =
    if limit == 0 || duration == 0
    then none
    else lease_intents now (now + duration) jobs (take limit (sort_due (keep (is_due now) rows)))
        rows

unfoldable pub renew_intent : Instant → Intent → Intent
renew_intent until r = record r { lease_until = some until }

-- `RenewNotificationLease`, and whether it renewed just one row.
unfoldable pub renew_notification_lease :
    String → Instant → Duration → List Intent → List Intent × Bool
unfolding renew_intent
renew_notification_lease job now duration rows =
    if str_eq job "" || duration == 0 then (rows, false) else (
      change_where (owned_by job) (renew_intent (now + duration)) rows,
      count_rows (owned_by job) rows == 1,
    )

unfoldable pub finish_intent : Instant → NotificationCompletion → Intent → Intent
finish_intent clock c r =
    let finished = is_zero c.next_attempt_at in
    record r {
      attempt = r.attempt + 1;
      next_attempt_at = c.next_attempt_at;
      result = c.result;
      lease_owner = none;
      lease_until = none;
      dedupe_key = if finished then none else r.dedupe_key;
      finished_at =
          if finished then some (if is_zero c.finished_at then clock else c.finished_at) else none;
    }

-- `CompleteNotification` at the time `clock`, and whether it completed just one row.
unfoldable pub complete_notification :
    Instant → NotificationCompletion → List Intent → List Intent × Bool
unfolding finish_intent
complete_notification clock c rows = (
  change_where (owned_by c.job_id) (finish_intent clock c) rows,
  count_rows (owned_by c.job_id) rows == 1,
)

-- `ReleaseNotificationLease`
unfoldable pub release_notification_lease : String → List Intent → List Intent
release_notification_lease job rows =
    if str_eq job ""
    then rows
    else change_where (owned_by job) (λ r. record r { lease_owner = none; lease_until = none }) rows

-- The rows that a prune may delete: finished before a time, and not leased.
abbrev pub prunable : Instant → Intent → Bool
prunable before r =
    r.next_attempt_at == 0
    && elim r.finished_at [ none ↦ false | some at ↦ ltb at before ]
    && not (is_owned r)

abbrev pub finish_time : Intent → Instant
finish_time r = elim r.finished_at [ none ↦ 0 | some at ↦ at ]

abbrev pub insert_finished : Intent → List Intent → List Intent
insert_finished r [] = r ∷ []
insert_finished r (s ∷ rows) =
    let rest = insert_finished r rows in
    if ltb (finish_time s) (finish_time r) then s ∷ rest else r ∷ s ∷ rows

unfoldable pub sort_finished : List Intent → List Intent
sort_finished [] = []
sort_finished (r ∷ rows) = insert_finished r (sort_finished rows)

-- `PruneFinishedNotifications`, and the number of rows that it deleted; a limit of 0 is an error.
unfoldable pub prune_finished_notifications : Instant → ℕ → List Intent → Option (List Intent × ℕ)
unfolding sort_finished
prune_finished_notifications before limit rows =
    let old = take limit (sort_finished (keep (prunable before) rows)) in
    let chosen = λ (r : Intent). any (λ (s : Intent). s.id == r.id) old in
    if limit == 0 then none else some (keep (λ r. not (chosen r)) rows, count_rows chosen rows)

-- The payload names the instance, in `$.media.ref.instance`; reading JSON is the database's.
abbrev pub of_instance : (String → Option String) → String → Intent → Bool
of_instance instance_of name r = elim (instance_of r.payload_json) [
  | none ↦ false
  | some instance_name ↦ str_eq instance_name name
]

-- `ForgetInstance`: its notifications go, sent or not.
unfoldable pub forget_notifications : (String → Option String) → String → List Intent → List Intent
forget_notifications instance_of name rows = keep (λ r. not (of_instance instance_of name r)) rows
