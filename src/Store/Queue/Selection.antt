-- ===== src/Store/Queue/Selection.antt =====
-- The searches that `LeaseDueSearchesExcept` selects (internal/store/repository.go) are rows of the
-- table, each once, and free: all of them are leased.
use mathlib.Core.Bool.{false≢true}
use subsyncd.Store.Queue.Rows.{SearchRow, lease_free, Outcome, done, Media, failed, MediaRow}
use subsyncd.Common.Time.{Instant, Duration}
use subsyncd.Store.Queue.Shape.{unique, all_rows, IsTable}
use subsyncd.Common.{
  ℕ, List, Bool, any, ◌≡◌, not, ◌||◌, ◌∷◌, false, true, ◌∙◌, keep, sym, take, Bool-cases, ◌&&◌,
  arith, [], any-keep-false, suc, zero, refl, inl, inr, ◌<◌, Option, ◌==◌, ◌+◌, some, leb, none,
  length, ◌≤◌, and_right, and_true, and_left, negated,
}
use subsyncd.Store.Queue.Counts.{key_of, is_row_self, any-count_where, all_rows-map2, any-all_rows}
use subsyncd.Store.Queue.Granting.{takes_one, free_at, Granted, lease_rows-Granted}
use subsyncd.Store.Queue.Order.{is_gt}
use subsyncd.Store.Queue.Ranking.{all_rows-insert_row, insert_row-if, all_rows-take}
use subsyncd.Store.Queue.Inserts.{is_row_sym}
use subsyncd.Store.Queue.Places.{any_and}
use subsyncd.Store.Queue.Resume.{Repository}
use subsyncd.Common.Text.{String}
use subsyncd.Store.Queue.Grants.{lease_due_searches_except, nothing_in_scope}
use subsyncd.Store.Queue.Due.{
  due_searches, sort_rows, PausedRoute, insert_row, is_due, queue_compare, in_scope, on_route,
}

-- A free row of a well-formed table is the one that its claim takes.
abbrev claimable_once : Instant → List SearchRow → SearchRow → Bool
claimable_once now rows d = not (lease_free now d) || takes_one now rows d

claimable_more :
    (now : Instant) (d r : SearchRow) (rows : List SearchRow)
    → not (key_of r d) ≡ true
    → claimable_once now rows d ≡ true
    → claimable_once now (r ∷ rows) d ≡ true
claimable_more now d r rows h k = rw (sym (is_row_sym r d), negated (key_of r d) h) (ground arith)

claimable_first :
    (now : Instant) (r : SearchRow) (rows : List SearchRow)
    → any (key_of r) rows ≡ false
    → claimable_once now (r ∷ rows) r ≡ true
claimable_first now r rows h =
    rw
      (
        is_row_self r,
        any-count_where (key_of r) rows h,
        any-count_where (free_at now r) rows (any_and (key_of r) (lease_free now) rows h),
      )
      (ground arith)

unique-claimable :
    (now : Instant) (rows : List SearchRow)
    → unique rows ≡ true
    → all_rows (claimable_once now rows) rows ≡ true
unfolding unique
unique-claimable now [] h = refl
unique-claimable now (r ∷ rows) h =
    let none_later =
      negated (any (key_of r) rows) (and_left (not (any (key_of r) rows)) (unique rows) h) in
    let rest = unique-claimable now rows (and_right (not (any (key_of r) rows)) (unique rows) h) in
    and_true (claimable_once now (r ∷ rows) r) (all_rows (claimable_once now (r ∷ rows)) rows)
      (claimable_first now r rows none_later)
      (all_rows-map2 (λ d. not (key_of r d)) (claimable_once now rows)
        (claimable_once now (r ∷ rows)) (λ d. claimable_more now d r rows) rows
        (any-all_rows (key_of r) (λ d. not (key_of r d)) rows (λ d n. rw n refl) none_later) rest)

unique-keep :
    (q : SearchRow → Bool) (rows : List SearchRow)
    → unique rows ≡ true
    → unique (keep q rows) ≡ true
unfolding unique
unique-keep q [] h = refl
unique-keep q (r ∷ rows) h = ground (arith, unique-keep q rows, any-keep-false (key_of r) q rows)

any-insert_row :
    (p : SearchRow → Bool) (r : SearchRow) (rows : List SearchRow)
    → any p (insert_row r rows) ≡ (p r || any p rows)
unfolding insert_row
any-insert_row p r [] = ground arith
any-insert_row p r (s ∷ rows) = elim (Bool-cases (is_gt (queue_compare r s))) [
  | inl y ↦ rw (insert_row-if r s rows, y, any-insert_row p r rows) (ground arith)
  | inr n ↦ rw (insert_row-if r s rows, n) (ground arith)
]

unique-insert_row :
    (r : SearchRow) (rows : List SearchRow)
    → any (key_of r) rows ≡ false
    → unique rows ≡ true
    → unique (insert_row r rows) ≡ true
unfolding insert_row unique
unique-insert_row r [] h u = refl
unique-insert_row r (s ∷ rows) h u = elim (Bool-cases (is_gt (queue_compare r s))) [
  | inl y ↦
      rw (insert_row-if r s rows, y, any-insert_row (key_of s) r rows, is_row_sym s r)
        (ground (arith, unique-insert_row r rows))
  | inr n ↦ rw (insert_row-if r s rows, n) (ground arith)
]

any-sort_rows : (p : SearchRow → Bool) (rows : List SearchRow) → any p (sort_rows rows) ≡ any p rows
unfolding sort_rows
any-sort_rows p [] = refl
any-sort_rows p (r ∷ rows) =
    rw (any-insert_row p r (sort_rows rows), any-sort_rows p rows) (ground arith)

unique-sort_rows : (rows : List SearchRow) → unique rows ≡ true → unique (sort_rows rows) ≡ true
unfolding sort_rows unique
unique-sort_rows [] h = refl
unique-sort_rows (r ∷ rows) h =
    unique-insert_row r (sort_rows rows)
      (any-sort_rows (key_of r) rows
        ∙ negated (any (key_of r) rows) (and_left (not (any (key_of r) rows)) (unique rows) h))
      (unique-sort_rows rows (and_right (not (any (key_of r) rows)) (unique rows) h))

any-take :
    (p : SearchRow → Bool) (n : ℕ) (rows : List SearchRow)
    → any p rows ≡ false
    → any p (take n rows) ≡ false
any-take p zero rows h = refl
any-take p (suc n) [] h = refl
any-take p (suc n) (r ∷ rows) h = ground (arith, any-take p n rows)

unique-take : (n : ℕ) (rows : List SearchRow) → unique rows ≡ true → unique (take n rows) ≡ true
unfolding unique
unique-take zero rows h = refl
unique-take (suc n) [] h = refl
unique-take (suc n) (r ∷ rows) h = ground (arith, unique-take n rows, any-take (key_of r) n rows)

-- Of the rows of a well-formed table, those kept by a test are in it.
all_rows-keep :
    (p q : SearchRow → Bool) (rows : List SearchRow)
    → all_rows p rows ≡ true
    → all_rows (λ r. p r && q r) (keep q rows) ≡ true
all_rows-keep p q [] h = refl
all_rows-keep p q (r ∷ rows) h = ground (arith, all_rows-keep p q rows)

all_rows-sort_rows :
    (g : SearchRow → Bool) (rows : List SearchRow) → all_rows g (sort_rows rows) ≡ all_rows g rows
unfolding sort_rows
all_rows-sort_rows g [] = refl
all_rows-sort_rows g (r ∷ rows) =
    rw (all_rows-insert_row g r (sort_rows rows), all_rows-sort_rows g rows) refl

due_and_free : (a b c d e f : Bool) → (a && b && c && d && e && f) ≡ true → d ≡ true
due_and_free a b c d e f h = ground arith

free_if :
    (repo : Repository) (now : Instant) (paused : List PausedRoute) (r : SearchRow)
    (o : Option MediaRow)
    → (elim o [
      | none ↦ false
      | some m ↦
          not m.deleted
          && r.pending
          && leb r.next_attempt_at now
          && lease_free now r
          && in_scope repo.search_scope r m
          && not (any (on_route r m) paused)
    ])
      ≡ true
    → lease_free now r ≡ true
free_if repo now paused r none h = absurd (false≢true h)
free_if repo now paused r (some m) h =
    due_and_free (not m.deleted) r.pending (leb r.next_attempt_at now) (lease_free now r)
      (in_scope repo.search_scope r m) (not (any (on_route r m) paused)) h

is_due-lease_free :
    (repo : Repository) (media : Media) (now : Instant) (paused : List PausedRoute) (r : SearchRow)
    → is_due repo media now paused r ≡ true
    → lease_free now r ≡ true
unfolding is_due
is_due-lease_free repo media now paused r h = free_if repo now paused r (media r.media_id) h

claimed_once : (a b c : Bool) → ((not a || b) && c) ≡ true → a ≡ true → b ≡ true
claimed_once a b c h k = ground arith

later : (now duration : ℕ) → 0 < duration → now < now + duration
later now duration d = omega arith

no_zero : (m n : ℕ) → 0 < m → 0 < n → (m == 0 || n == 0) ≡ false
no_zero m n h k = ground arith

due_searches-takes_one :
    (repo : Repository) (media : Media) (now : Instant) (limit : ℕ) (paused : List PausedRoute)
    (rows : List SearchRow)
    → unique rows ≡ true
    → all_rows (takes_one now rows) (due_searches repo media now limit paused rows) ≡ true
unfolding due_searches
due_searches-takes_one repo media now limit paused rows u =
    let q = is_due repo media now paused in
    let kept = all_rows-keep (claimable_once now rows) q rows (unique-claimable now rows u) in
    let good =
      all_rows-map2 (λ r. claimable_once now rows r && q r) (λ r. claimable_once now rows r && q r)
        (takes_one now rows)
        (λ r h _. claimed_once (lease_free now r) (takes_one now rows r) (q r) h (
          is_due-lease_free repo media now paused r
            (and_right (claimable_once now rows r) (q r) h)))
        (keep q rows) kept kept in
    all_rows-take (takes_one now rows) limit (sort_rows (keep q rows))
      (all_rows-sort_rows (takes_one now rows) (keep q rows) ∙ good)

due_searches-unique :
    (repo : Repository) (media : Media) (now : Instant) (limit : ℕ) (paused : List PausedRoute)
    (rows : List SearchRow)
    → unique rows ≡ true
    → unique (due_searches repo media now limit paused rows) ≡ true
unfolding due_searches
due_searches-unique repo media now limit paused rows u =
    unique-take limit (sort_rows (keep (is_due repo media now paused) rows)) (
      unique-sort_rows (keep (is_due repo media now paused) rows)
        (unique-keep (is_due repo media now paused) rows u))

-- The rows and the leases that the method returns, where it succeeds.
abbrev pub answer : {A : Type 0} → Outcome A → Option (List SearchRow × A)
answer (done rows a) = some (rows, a)
answer (failed _) = none

-- On a well-formed table, with a limit, a duration, a scope that is not empty and a job id for each
-- selected search, the method succeeds: it returns a lease of every search that it selected, in
-- their order, and in the table each is held by the job of its lease for the duration at least.
pub lease_due_searches_except-Granted :
    (repo : Repository) (media : Media) (ids : List String) (now : Instant) (limit : ℕ)
    (duration : Duration) (paused : List PausedRoute) (rows : List SearchRow)
    → IsTable rows
    → 0 < limit
    → 0 < duration
    → nothing_in_scope repo ≡ false
    → length (due_searches repo media now limit paused rows) ≤ length ids
    → Granted
        (now + duration)
        (due_searches repo media now limit paused rows)
        (answer (lease_due_searches_except repo media ids now limit duration paused rows))
unfolding lease_due_searches_except
lease_due_searches_except-Granted repo media ids now limit duration paused rows (h, u) l d s n =
    let due = due_searches repo media now limit paused rows in
    let (rows', leases, eq, keys, all) =
      lease_rows-Granted repo now (now + duration) ids due rows (later now duration d)
        (due_searches-unique repo media now limit paused rows u) n
        (due_searches-takes_one repo media now limit paused rows u) in
    (rows', leases, rw (no_zero limit duration l d, s, eq) refl, keys, all)
