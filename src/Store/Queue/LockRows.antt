-- ===== src/Store/Queue/LockRows.antt =====
-- The leases in the table of searches (internal/store/search_claim.go, lease_release.go,
-- repository.go) stand for locks.
use mathlib.Core.Option.{map as map_option, some-injective, none-ne-some}
use mathlib.Core.Bool.{true≢false, false≢true}
use subsyncd.Common.{
  ℕ, Bool, ◌≡◌, List, true, some, ◌∷◌, if◌then◌else◌, arith, Bool-cases, inl, none, subst, inr, [],
  refl, any, false, ◌++◌, ap, ◌∙◌, Option-cases, and_left, and_right,
}
use subsyncd.Store.Queue.Rows.{
  SearchRow, find_where, owned_by, is_row, lease_free, update_where, release_row,
}
use subsyncd.Store.Queue.Shape.{shaped, KeepsKey, all_rows}
use subsyncd.Common.Text.{String}
use subsyncd.Common.Time.{Instant}
use subsyncd.Store.Queue.Lock.{lock, lapsed, owns, extended, Lock, locks_of, lock_of}
use subsyncd.Store.Queue.Leases.{renew_row}

key-is_row :
    (id : ℕ) (language : String) (f : SearchRow → SearchRow)
    → KeepsKey f
    → (r : SearchRow) → is_row id language (f r) ≡ is_row id language r
key-is_row id language f key r = rw ((key r).0, (key r).1) refl

-- The row of a key, after an update.
pub find-update_where :
    (id : ℕ) (language : String) (p : SearchRow → Bool) (f : SearchRow → SearchRow)
    → KeepsKey f
    → (rows : List SearchRow)
    → find_where (is_row id language) (update_where p f rows)
      ≡ map_option (λ r. if p r then f r else r) (find_where (is_row id language) rows)
find-update_where id language p f key [] = refl
find-update_where id language p f key (r ∷ rows) = elim (Bool-cases (p r)) [
  | inr n ↦ elim (Bool-cases (is_row id language r)) [
    | inl k ↦ rw (n, k, n) refl
    | inr m ↦ rw (n, m, find-update_where id language p f key rows) refl
  ]
  | inl y ↦ elim (Bool-cases (is_row id language r)) [
    | inl k ↦ rw (y, key-is_row id language f key r ∙ k, k, y) refl
    | inr m ↦
        rw (y, key-is_row id language f key r ∙ m, m, find-update_where id language p f key rows)
          refl
  ]
]

-- A row that is found passes every test of all rows.
pub found-passes :
    (g p : SearchRow → Bool) (rows : List SearchRow) (r : SearchRow)
    → all_rows g rows ≡ true
    → find_where p rows ≡ some r
    → (g r ≡ true) × (p r ≡ true)
found-passes g p [] r h e = absurd (none-ne-some r e)
found-passes g p (s ∷ rows) r h e = elim (Bool-cases (p s)) [
  | inl y ↦
      let same : s ≡ r =
        some-injective s r (subst (λ b. (if b then some s else find_where p rows) ≡ some r) y e) in
      (
        subst (λ x. g x ≡ true) same (and_left (g s) (all_rows g rows) h),
        subst (λ x. p x ≡ true) same y,
      )
  | inr n ↦
      found-passes g p rows r (and_right (g s) (all_rows g rows) h)
        (subst (λ b. (if b then some s else find_where p rows) ≡ some r) n e)
]

-- On a row whose two columns agree, the tests of the statements are those of its lock.
pub shaped-lapsed :
    (now : Instant) (r : SearchRow) → shaped r ≡ true → lease_free now r ≡ lapsed now (lock r)
unfolding shaped
shaped-lapsed now r h = ground arith

pub shaped-owns :
    (job : String) (r : SearchRow) → shaped r ≡ true → owned_by job r ≡ owns job (lock r)
unfolding shaped
shaped-owns job r h = ground arith

pub renew-lock :
    (job : String) (until : Instant) (r : SearchRow)
    → shaped r ≡ true
    → lock (if owned_by job r then renew_row until r else r) ≡ extended job until (lock r)
unfolding shaped renew_row
renew-lock job until r h = ground arith

pub release-lock :
    (job : String) (r : SearchRow)
    → shaped r ≡ true
    → lock (if owned_by job r then release_row r else r)
      ≡ (if owns job (lock r) then none else lock r)
unfolding shaped
release-lock job r h = ground arith

-- The lock of a key, after an update that acts on each lock as `g`.
pub lock-update_where :
    (id : ℕ) (language : String) (p : SearchRow → Bool) (f : SearchRow → SearchRow)
    (g : Lock → Lock)
    → KeepsKey f
    → g none ≡ none
    → ((r : SearchRow)
        → shaped r ≡ true
        → is_row id language r ≡ true
        → lock (if p r then f r else r) ≡ g (lock r))
    → (rows : List SearchRow) → all_rows shaped rows ≡ true
    → locks_of (update_where p f rows) id language ≡ g (locks_of rows id language)
lock-update_where id language p f g key empty same rows h =
    ap lock_of (find-update_where id language p f key rows)
    ∙ elim (Option-cases (find_where (is_row id language) rows)) [
      | inl e ↦ rw (e, empty) refl
      | inr (r, e) ↦
          let (good, mine) = found-passes shaped (is_row id language) rows r h e in
          rw (e, same r good mine) refl
    ]

pub find-append :
    (p : SearchRow → Bool) (rows : List SearchRow) (r : SearchRow)
    → any p rows ≡ false
    → find_where p (rows ++ r ∷ []) ≡ (if p r then some r else none)
find-append p [] r h = refl
find-append p (s ∷ rows) r h = elim (Bool-cases (p s)) [
  | inl y ↦ absurd (true≢false (subst (λ b. (if b then true else any p rows) ≡ false) y h))
  | inr n ↦
      rw (n, find-append p rows r (subst (λ b. (if b then true else any p rows) ≡ false) n h)) refl
]

pub find-append-other :
    (p : SearchRow → Bool) (rows : List SearchRow) (r : SearchRow)
    → p r ≡ false
    → find_where p (rows ++ r ∷ []) ≡ find_where p rows
find-append-other p [] r h = rw h refl
find-append-other p (s ∷ rows) r h = elim (Bool-cases (p s)) [
  | inl y ↦ rw y refl
  | inr n ↦ rw (n, find-append-other p rows r h) refl
]

pub any-find :
    (p : SearchRow → Bool) (rows : List SearchRow) → any p rows ≡ false → find_where p rows ≡ none
any-find p [] h = refl
any-find p (s ∷ rows) h = elim (Bool-cases (p s)) [
  | inl y ↦ absurd (true≢false (subst (λ b. (if b then true else any p rows) ≡ false) y h))
  | inr n ↦ rw (n, any-find p rows (subst (λ b. (if b then true else any p rows) ≡ false) n h)) refl
]

pub any-found :
    (p : SearchRow → Bool) (rows : List SearchRow)
    → any p rows ≡ true
    → (r : SearchRow) × (find_where p rows ≡ some r)
any-found p [] h = absurd (false≢true h)
any-found p (s ∷ rows) h = elim (Bool-cases (p s)) [
  | inl y ↦ (s, ap (λ b. if b then some s else find_where p rows) y)
  | inr n ↦
      let (r, e) = any-found p rows (subst (λ b. (if b then true else any p rows) ≡ true) n h) in
      (r, ap (λ b. if b then some s else find_where p rows) n ∙ e)
]
