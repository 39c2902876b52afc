-- ===== src/Store/Outbox/Pruning.antt =====
-- How much `PruneFinishedNotifications` (internal/store/repository.go) deletes.
use subsyncd.Common.{
  ℕ, List, ◌≡◌, Option, Bool, ◌≤◌, ◌==◌, ◌+◌, if◌then◌else◌, false, true, any, min, length, some,
  ◌<◌, arith, ◌∷◌, take, keep, not, none, [], Bool-cases, inr, refl, length-take, inl, ==_iff,
  subst, and_right, negated, and_left,
}
use subsyncd.Store.Outbox.Ids.{unique_ids, has_id}
use subsyncd.Store.Outbox.{
  Intent, prune_finished_notifications, count_rows, sort_finished, prunable,
}
use subsyncd.Common.Time.{Instant}

from_rest : (n : ℕ) → n ≤ 1 → 0 + n ≤ 1
from_rest n h = omega arith

one_here : (n : ℕ) → n ≡ 0 → 1 + n ≤ 1
one_here n h = omega arith

none_counted : (p : Intent → Bool) (rows : List Intent) → any p rows ≡ false → count_rows p rows ≡ 0
none_counted p [] h = refl
none_counted p (r ∷ rows) h = ground (arith, none_counted p rows)

none_chosen : (rows : List Intent) → count_rows (λ _. false) rows ≤ 0
none_chosen [] = omega arith
none_chosen (r ∷ rows) = omega (arith, none_chosen rows)

count-or :
    (p q : Intent → Bool) (rows : List Intent)
    → count_rows (λ r. if p r then true else q r) rows ≤ count_rows p rows + count_rows q rows
count-or p q [] = omega arith
count-or p q (r ∷ rows) = ground (arith, count-or p q rows)

count-id-swap :
    (id : ℕ) (rows : List Intent) → count_rows (λ r. id == r.id) rows ≡ count_rows (has_id id) rows
count-id-swap id [] = refl
count-id-swap id (r ∷ rows) = ground (arith, count-id-swap id rows)

some_limit : (n : ℕ) → (n == 0) ≡ false → 0 < n
some_limit n h = ground arith

at_most : (n m limit k : ℕ) → n ≤ m → m ≡ min limit k → n ≤ limit
at_most n m limit k h e = omega arith

one_of_id : (id : ℕ) (rows : List Intent) → unique_ids rows ≡ true → count_rows (has_id id) rows ≤ 1
unfolding unique_ids
one_of_id id [] u = omega arith
one_of_id id (r ∷ rows) u = elim (Bool-cases (has_id id r)) [
  | inr n ↦ rw n (
      from_rest (count_rows (has_id id) rows)
        (one_of_id id rows (and_right (not (any (has_id r.id) rows)) (unique_ids rows) u)))
  | inl y ↦
      let same : r.id ≡ id = (==_iff r.id id).0 y in
      let none_later : any (has_id id) rows ≡ false =
        subst (λ i. any (has_id i) rows ≡ false) same
          (negated (any (has_id r.id) rows)
            (and_left (not (any (has_id r.id) rows)) (unique_ids rows) u)) in
      rw y (one_here (count_rows (has_id id) rows) (none_counted (has_id id) rows none_later))
]

-- Each id selects one row at most.
chosen-le :
    (old rows : List Intent)
    → unique_ids rows ≡ true
    → count_rows (λ r. any (λ (s : Intent). s.id == r.id) old) rows ≤ length old
chosen-le [] rows u = none_chosen rows
chosen-le (s ∷ old) rows u =
    let split = count-or (λ r. s.id == r.id) (λ r. any (λ (t : Intent). t.id == r.id) old) rows in
    let one = one_of_id s.id rows u in
    let swap = count-id-swap s.id rows in
    let rest = chosen-le old rows u in omega (arith, split, one, swap, rest)

count-keep :
    (p : Intent → Bool) (rows : List Intent)
    → length (keep (λ r. not (p r)) rows) + count_rows p rows ≡ length rows
count-keep p [] = omega arith
count-keep p (r ∷ rows) = ground (arith, count-keep p rows)

-- The answer to a prune of a table.
abbrev pub Pruned : ℕ → List Intent → Option (List Intent × ℕ) → Type 0
Pruned limit rows none = limit ≡ 0
Pruned limit rows (some (rows', n)) = (0 < limit) × (n ≤ limit) × (length rows' + n ≡ length rows)

-- With unique ids a prune fails exactly for a limit of 0, and otherwise reports how many intents it
-- deleted, which is at most the limit.
pub prune_finished_notifications-Pruned :
    (before : Instant) (limit : ℕ) (rows : List Intent)
    → unique_ids rows ≡ true
    → Pruned limit rows (prune_finished_notifications before limit rows)
unfolding prune_finished_notifications
prune_finished_notifications-Pruned before limit rows u =
    let old = take limit (sort_finished (keep (prunable before) rows)) in
    let most = chosen-le old rows u in
    let size = length-take limit (sort_finished (keep (prunable before) rows)) in
    elim (Bool-cases (limit == 0)) [
      | inl y ↦ rw y ((==_iff limit 0).0 y)
      | inr n ↦ rw n (
        some_limit limit n,
        at_most (count_rows (λ r. any (λ (s : Intent). s.id == r.id) old) rows) (length old) limit
            (length (sort_finished (keep (prunable before) rows))) most size,
        count-keep (λ r. any (λ (s : Intent). s.id == r.id) old) rows,
      )
    ]
