-- ===== src/Store/Outbox/Coalescing.antt =====
-- `EnqueueNotification` (internal/store/repository.go): a change is announced by an intent that is
-- still to be sent.
use mathlib.Core.Bool.{true≢false, false≢true}
use mathlib.Core.Option.{some-injective, none-ne-some}
use subsyncd.Common.{
  ℕ, ◌==◌, Bool, ◌≡◌, List, any, true, ◌&&◌, false, none, ◌++◌, some, ltb, not, arith, ◌∷◌,
  Bool-cases, ◌||◌, [], refl, inl, subst, ap, sym, if◌then◌else◌, inr, ◌∙◌, Option-cases, Option,
  and_left, negated, and_right,
}
use subsyncd.Store.Outbox.{
  Intent, NotificationRequest, has_key, find_intent, new_intent, is_owned, enqueue,
  enqueue_notification, insert_intent, drop_key, change_where, valid_request,
}
use subsyncd.Store.Outbox.Rows.{sound, all_intents, unique_keys, key_free, IsOutbox}
use subsyncd.Common.Text.{String, str_eq, eq_iff}
use subsyncd.Store.Outbox.Keys.{key-change_where}
use subsyncd.Store.Outbox.Upkeep.{due_request}

-- An intent of the key that is still to be sent; of a coalescing request, one that no job is
-- sending already.
abbrev pub announces : NotificationRequest → Intent → Bool
announces q r =
    has_key q.dedupe_key r && ltb 0 r.next_attempt_at && (not q.coalesce || not (is_owned r))

any-append :
    (p : Intent → Bool) (rows : List Intent) (r : Intent)
    → p r ≡ true
    → any p (rows ++ r ∷ []) ≡ true
any-append p [] r h = rw h refl
any-append p (s ∷ rows) r h = ground (arith, any-append p rows r)

found_in :
    (p g : Intent → Bool) (rows : List Intent) (r : Intent)
    → all_intents g rows ≡ true
    → find_intent p rows ≡ some r
    → (p r ≡ true) × (g r ≡ true)
found_in p g [] r h e = absurd (none-ne-some r e)
found_in p g (s ∷ rows) r h e = elim (Bool-cases (p s)) [
  | inl y ↦
      let same : s ≡ r =
        some-injective s r (subst (λ b. (if b then some s else find_intent p rows) ≡ some r) y e) in
      (
        subst (λ x. p x ≡ true) same y,
        subst (λ x. g x ≡ true) same (and_left (g s) (all_intents g rows) h),
      )
  | inr n ↦
      found_in p g rows r (and_right (g s) (all_intents g rows) h)
        (subst (λ b. (if b then some s else find_intent p rows) ≡ some r) n e)
]

any-found :
    (p q : Intent → Bool) (rows : List Intent) (r : Intent)
    → find_intent p rows ≡ some r
    → q r ≡ true
    → any q rows ≡ true
any-found p q [] r e h = absurd (none-ne-some r e)
any-found p q (s ∷ rows) r e h = elim (Bool-cases (p s)) [
  | inl y ↦
      let same : s ≡ r =
        some-injective s r (subst (λ b. (if b then some s else find_intent p rows) ≡ some r) y e) in
      rw (subst (λ x. q x ≡ true) (sym same) h) refl
  | inr n ↦ ground (
    arith,
    any-found p q rows r (subst (λ b. (if b then some s else find_intent p rows) ≡ some r) n e) h,
  )
]

no-find : (p : Intent → Bool) (rows : List Intent) → find_intent p rows ≡ none → any p rows ≡ false
no-find p [] e = refl
no-find p (s ∷ rows) e = elim (Bool-cases (p s)) [
  | inl y ↦
      absurd
        (none-ne-some s (sym (subst (λ b. (if b then some s else find_intent p rows) ≡ none) y e)))
  | inr n ↦
      rw (n, no-find p rows (subst (λ b. (if b then some s else find_intent p rows) ≡ none) n e))
        refl
]

some-find :
    (p : Intent → Bool) (rows : List Intent)
    → any p rows ≡ true
    → (r : Intent) × (find_intent p rows ≡ some r)
some-find p [] h = absurd (false≢true h)
some-find p (s ∷ rows) h = elim (Bool-cases (p s)) [
  | inl y ↦ (s, ap (λ b. if b then some s else find_intent p rows) y)
  | inr n ↦
      let (r, e) = some-find p rows (subst (λ b. (if b then true else any p rows) ≡ true) n h) in
      (r, ap (λ b. if b then some s else find_intent p rows) n ∙ e)
]

-- An intent with a key is not finished.
keyed-pending :
    (k : String) (r : Intent) → sound r ≡ true → has_key k r ≡ true → ltb 0 r.next_attempt_at ≡ true
unfolding sound
keyed-pending k r h e = ground arith

str_eq_self : (t : String) → str_eq t t ≡ true
str_eq_self t = (eq_iff t t).1 refl

new-announces :
    (id : ℕ) (q : NotificationRequest)
    → (q.next_attempt_at == 0) ≡ false
    → announces q (new_intent id q) ≡ true
new-announces id q due = rw (str_eq_self q.dedupe_key) (ground arith)

insert-announces :
    (id : ℕ) (q : NotificationRequest) (rows : List Intent)
    → (q.next_attempt_at == 0) ≡ false
    → any (has_key q.dedupe_key) rows ≡ false
    → any (announces q) (insert_intent id q rows).0 ≡ true
unfolding insert_intent
insert-announces id q rows due n =
    rw n (any-append (announces q) rows (new_intent id q) (new-announces id q due))

id_self : (n : ℕ) → (n == n) ≡ true
id_self n = ground arith

key-once :
    (k : String) (s : Intent) (rows : List Intent)
    → has_key k s ≡ true
    → key_free rows s ≡ true
    → any (has_key k) rows ≡ false
key-once k s rows y h = elim (Option-cases s.dedupe_key) [
  | inl e ↦ absurd (true≢false (sym y ∙ rw e refl))
  | inr (k', e) ↦
      let same : k' ≡ k = (eq_iff k' k).0 (sym (rw e refl) ∙ y) in
      subst (λ x. any (has_key x) rows ≡ false) same
        (negated (any (has_key k') rows) (sym (rw e refl) ∙ h))
]

-- The only row of a key loses it.
dropped :
    (k : String) (rows : List Intent) (found : Intent)
    → unique_keys rows ≡ true
    → find_intent (has_key k) rows ≡ some found
    → any (has_key k) (change_where (λ r. r.id == found.id) drop_key rows) ≡ false
unfolding unique_keys drop_key
dropped k [] found u e = refl
dropped k (s ∷ rows) found u e = elim (Bool-cases (has_key k s)) [
  | inl y ↦
      let same : s ≡ found =
        some-injective s found
          (subst (λ b. (if b then some s else find_intent (has_key k) rows) ≡ some found) y e) in
      let here : (s.id == found.id) ≡ true =
        subst (λ x. (s.id == x.id) ≡ true) same (id_self s.id) in
      rw here (
        key-change_where k (λ r. r.id == found.id) drop_key (λ r. inr refl) rows
          (key-once k s rows y (and_left (key_free rows s) (unique_keys rows) u)))
  | inr n ↦
      let rest =
        dropped k rows found (and_right (key_free rows s) (unique_keys rows) u)
          (subst (λ b. (if b then some s else find_intent (has_key k) rows) ≡ some found) n e) in
      elim (Bool-cases (s.id == found.id)) [
        | inl i ↦ rw (i, rest) refl
        | inr j ↦ rw (j, n, rest) refl
      ]
]

plain-announces :
    (id : ℕ) (q : NotificationRequest) (rows : List Intent)
    → (q.next_attempt_at == 0) ≡ false
    → q.coalesce ≡ false
    → all_intents sound rows ≡ true
    → any (announces q) (insert_intent id q rows).0 ≡ true
unfolding insert_intent
plain-announces id q rows due c h = elim (Bool-cases (any (has_key q.dedupe_key) rows)) [
  | inr n ↦ rw n (any-append (announces q) rows (new_intent id q) (new-announces id q due))
  | inl y ↦
      let (r, e) = some-find (has_key q.dedupe_key) rows y in
      let (k, g) = found_in (has_key q.dedupe_key) sound rows r h e in
      rw y (
        any-found (has_key q.dedupe_key) (announces q) rows r e
          (rw (k, keyed-pending q.dedupe_key r g k, c) refl))
]

enqueued :
    (id : ℕ) (q : NotificationRequest) (rows : List Intent)
    → (q.next_attempt_at == 0) ≡ false
    → IsOutbox rows
    → any (announces q) (enqueue_notification id q rows).0 ≡ true
unfolding enqueue_notification
enqueued id q rows due (h, u) = elim (Bool-cases q.coalesce) [
  | inr n ↦ simp n (plain-announces id q rows due n h)
  | inl c ↦ elim (Option-cases (find_intent (has_key q.dedupe_key) rows)) [
    | inl e ↦ simp (c, e) (insert-announces id q rows due (no-find (has_key q.dedupe_key) rows e))
    | inr (found, e) ↦ elim (Bool-cases (is_owned found)) [
      | inr f ↦
          let (k, g) = found_in (has_key q.dedupe_key) sound rows found h e in
          simp (c, e, f)
            (any-found (has_key q.dedupe_key) (announces q) rows found e
              (rw (k, keyed-pending q.dedupe_key found g k, c, f) refl))
      | inl o ↦
          simp (c, e, o)
            (insert-announces id q (change_where (λ r. r.id == found.id) drop_key rows) due
              (dropped q.dedupe_key rows found u e))
    ]
  ]
]

-- The answer to a request.
abbrev pub Announced : Bool → NotificationRequest → Option (List Intent × Bool) → Type 0
Announced valid q none = valid ≡ false
Announced valid q (some (rows, inserted)) = (valid ≡ true) × (any (announces q) rows ≡ true)

-- Once a valid request is queued in a well-formed outbox, some intent with its key is still to be
-- sent; if the request coalesces, one that no job is sending, so that it is sent after the change
-- that the request announces. A request that is not valid is an error.
pub enqueue-announces :
    (json_valid : String → Bool) (id : ℕ) (q : NotificationRequest) (rows : List Intent)
    → IsOutbox rows
    → Announced (valid_request json_valid q) q (enqueue json_valid id q rows)
unfolding enqueue
enqueue-announces json_valid id q rows t = elim (Bool-cases (valid_request json_valid q)) [
  | inr n ↦ rw n refl
  | inl v ↦ rw v (refl, enqueued id q rows (due_request json_valid q v) t)
]
