-- ===== src/Store/Outbox/Sparing.antt =====
-- `PruneFinishedNotifications` (internal/store/repository.go) deletes no pending intent.
use mathlib.Core.Bool.{true≢false, false≢true}
use subsyncd.Common.{
  ℕ, List, not, Bool, any, ◌≡◌, true, false, ◌==◌, ◌&&◌, ◌∷◌, take, keep, ◌||◌, suc, ltb,
  Bool-cases, arith, inr, inl, [], zero, ==_iff, refl, subst, sym, ◌∙◌, if◌then◌else◌, and_right,
  and_true, and_left, negated,
}
use subsyncd.Store.Outbox.{Intent, sort_finished, insert_finished, prunable}
use subsyncd.Common.Time.{Instant}
use subsyncd.Store.Outbox.Ids.{unique_ids, has_id}
use subsyncd.Store.Outbox.Rows.{all_intents}

abbrev pub pending : ℕ → Intent → Bool
pending id r = r.id == id && ltb 0 r.next_attempt_at

-- No pending intent has the id of a finished one.
abbrev apart : List Intent → Intent → Bool
apart rows s = not (s.next_attempt_at == 0) || not (any (pending s.id) rows)

none_pending :
    (id : ℕ) (rows : List Intent) → any (has_id id) rows ≡ false → any (pending id) rows ≡ false
none_pending id [] h = refl
none_pending id (r ∷ rows) h = ground (arith, none_pending id rows)

all-not :
    (p : Intent → Bool) (rows : List Intent)
    → any p rows ≡ false
    → all_intents (λ s. not (p s)) rows ≡ true
all-not p [] h = refl
all-not p (r ∷ rows) h = ground (arith, all-not p rows)

all_map2 :
    (p q g : Intent → Bool)
    → ((r : Intent) → p r ≡ true → q r ≡ true → g r ≡ true)
    → (rows : List Intent) → all_intents p rows ≡ true
    → all_intents q rows ≡ true
    → all_intents g rows ≡ true
all_map2 p q g f [] h k = refl
all_map2 p q g f (r ∷ rows) h k = ground (arith, f r, all_map2 p q g f rows)

apart_more :
    (r s : Intent) (rows : List Intent)
    → not (has_id r.id s) ≡ true
    → apart rows s ≡ true
    → apart (r ∷ rows) s ≡ true
apart_more r s rows n h = ground arith

apart_first :
    (r : Intent) (rows : List Intent) → any (has_id r.id) rows ≡ false → apart (r ∷ rows) r ≡ true
apart_first r rows n = ground (arith, none_pending r.id rows n)

all-apart : (rows : List Intent) → unique_ids rows ≡ true → all_intents (apart rows) rows ≡ true
unfolding unique_ids
all-apart [] u = refl
all-apart (r ∷ rows) u =
    let none_later =
      negated (any (has_id r.id) rows)
        (and_left (not (any (has_id r.id) rows)) (unique_ids rows) u) in
    let rest = all-apart rows (and_right (not (any (has_id r.id) rows)) (unique_ids rows) u) in
    and_true (apart (r ∷ rows) r) (all_intents (apart (r ∷ rows)) rows)
      (apart_first r rows none_later)
      (all_map2 (λ s. not (has_id r.id s)) (apart rows) (apart (r ∷ rows))
        (λ s. apart_more r s rows) rows (all-not (has_id r.id) rows none_later) rest)

all-keep :
    (g p q : Intent → Bool)
    → ((r : Intent) → g r ≡ true → p r ≡ true → q r ≡ true)
    → (rows : List Intent) → all_intents g rows ≡ true
    → all_intents q (keep p rows) ≡ true
all-keep g p q f [] h = refl
all-keep g p q f (r ∷ rows) h = ground (arith, f r, all-keep g p q f rows)

all-insert :
    (g : Intent → Bool) (r : Intent) (rows : List Intent)
    → g r ≡ true
    → all_intents g rows ≡ true
    → all_intents g (insert_finished r rows) ≡ true
all-insert g r [] h k = ground arith
all-insert g r (s ∷ rows) h k = ground (arith, all-insert g r rows)

all-sort :
    (g : Intent → Bool) (rows : List Intent)
    → all_intents g rows ≡ true
    → all_intents g (sort_finished rows) ≡ true
unfolding sort_finished
all-sort g [] h = refl
all-sort g (r ∷ rows) h =
    all-insert g r (sort_finished rows) (and_left (g r) (all_intents g rows) h)
      (all-sort g rows (and_right (g r) (all_intents g rows) h))

all-take :
    (g : Intent → Bool) (n : ℕ) (rows : List Intent)
    → all_intents g rows ≡ true
    → all_intents g (take n rows) ≡ true
all-take g zero rows h = refl
all-take g (suc n) [] h = refl
all-take g (suc n) (r ∷ rows) h =
    and_true (g r) (all_intents g (take n rows)) (and_left (g r) (all_intents g rows) h)
      (all-take g n rows (and_right (g r) (all_intents g rows) h))

-- The id of a pending intent is not among those that are deleted.
not-chosen :
    (id : ℕ) (rows old : List Intent)
    → any (pending id) rows ≡ true
    → all_intents (λ s. not (any (pending s.id) rows)) old ≡ true
    → any (λ s. s.id == id) old ≡ false
not-chosen id rows [] h k = refl
not-chosen id rows (s ∷ old) h k = elim (Bool-cases (s.id == id)) [
  | inr n ↦
      rw
        (
          n,
          not-chosen id rows old h (
              and_right (not (any (pending s.id) rows))
                (all_intents (λ s'. not (any (pending s'.id) rows)) old) k),
        )
        refl
  | inl y ↦
      let same : s.id ≡ id = (==_iff s.id id).0 y in
      absurd (
        true≢false (
          sym h
          ∙ subst (λ i. any (pending i) rows ≡ false) same
              (negated (any (pending s.id) rows) (
                and_left (not (any (pending s.id) rows))
                  (all_intents (λ s'. not (any (pending s'.id) rows)) old) k))))
]

kept-pending :
    (id : ℕ) (old rows : List Intent)
    → any (λ s. s.id == id) old ≡ false
    → any (pending id) rows ≡ true
    → any (pending id) (keep (λ r. not (any (λ (s : Intent). s.id == r.id) old)) rows) ≡ true
kept-pending id old [] n h = absurd (false≢true h)
kept-pending id old (r ∷ rows) n h = elim (Bool-cases (pending id r)) [
  | inl y ↦
      let same : r.id ≡ id =
        (==_iff r.id id).0 (and_left (r.id == id) (ltb 0 r.next_attempt_at) y) in
      let out : any (λ (s : Intent). s.id == r.id) old ≡ false =
        subst (λ i. any (λ (s : Intent). s.id == i) old ≡ false) (sym same) n in
      rw (out, y) refl
  | inr m ↦ elim (Bool-cases (any (λ (s : Intent). s.id == r.id) old)) [
    | inl c ↦ rw c (
        kept-pending id old rows n
          (subst (λ b. (if b then true else any (pending id) rows) ≡ true) m h))
    | inr c ↦
        rw (c, m)
          (kept-pending id old rows n
            (subst (λ b. (if b then true else any (pending id) rows) ≡ true) m h))
  ]
]

prunable-finished :
    (before : Instant) (rows : List Intent) (s : Intent)
    → apart rows s ≡ true
    → prunable before s ≡ true
    → not (any (pending s.id) rows) ≡ true
prunable-finished before rows s h p = ground arith

pub prune-pending :
    (id : ℕ) (before : Instant) (limit : ℕ) (rows : List Intent)
    → unique_ids rows ≡ true
    → any (pending id) rows ≡ true
    → any (pending id) (
        keep
          (λ r. not (
            any
              (λ (s : Intent). s.id == r.id)
              (take limit (sort_finished (keep (prunable before) rows)))))
          rows)
      ≡ true
prune-pending id before limit rows u h =
    let old = take limit (sort_finished (keep (prunable before) rows)) in
    kept-pending id old rows
      (not-chosen id rows old h (
        all-take _ limit (sort_finished (keep (prunable before) rows)) (
          all-sort _ (keep (prunable before) rows) (
            all-keep (apart rows) (prunable before) (λ s. not (any (pending s.id) rows))
              (prunable-finished before rows) rows (all-apart rows u)))))
      h
