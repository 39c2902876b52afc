-- ===== src/Store/Queue/LockClaims.antt =====
-- `ClaimSearch` (internal/store/search_claim.go) takes the lock of its search, and no other.
use mathlib.Core.Bool.{true≢false, false≢true}
use mathlib.Core.Option.{some-injective, none-ne-some}
use subsyncd.Common.{
  Bool, ℕ, if◌then◌else◌, ◌≡◌, ◌==◌, ◌+◌, List, ◌≤◌, ◌&&◌, true, arith, false, any, refl, not, some,
  ◌∷◌, Bool-cases, ◌||◌, inr, subst, ap, inl, sym, [], ◌∙◌, ==_iff, and_left, negated, and_right,
  and_true,
}
use subsyncd.Store.Queue.Shape.{unique, shaped, IsTable, all_rows}
use subsyncd.Store.Queue.Rows.{
  SearchRow, QueueOrder, count_where, find_where, upsert, is_row, new_row, missing_priority,
}
use subsyncd.Common.Text.{String, str_eq, eq_iff}
use subsyncd.Common.Time.{Instant, Duration}
use subsyncd.Store.Queue.Lock.{lapsed, locks_of, lock, owns, lock_of}
use subsyncd.Store.Queue.LockRows.{
  find-append, shaped-lapsed, any-find, shaped-owns, any-found, found-passes, find-append-other,
  find-update_where, lock-update_where,
}
use subsyncd.Store.Queue.Counts.{key_eq, count_where-and, key_of, is_row_self, any-count_where}
use subsyncd.Store.Queue.Keeps.{claim_row-key}
use subsyncd.Store.Queue.Leases.{claim_row, claimable}

no_more : (n : ℕ) → 1 + n ≡ 1 → n ≡ 0
no_more n h = omega arith

less : (n : ℕ) → 0 + n ≡ 1 → n ≡ 1
less n h = omega arith

plus_zero : (n m : ℕ) → n ≡ m → 0 + n ≡ m
plus_zero n m h = omega arith

none_added : (n m k : ℕ) → k ≡ 0 → m ≤ k → n + m ≡ n
none_added n m k h l = omega arith

-- The found row is the only one of its key that passes a second test, or none is.
count-found :
    (p q : SearchRow → Bool) (rows : List SearchRow) (r : SearchRow)
    → count_where p rows ≡ 1
    → find_where p rows ≡ some r
    → count_where (λ s. p s && q s) rows ≡ (if q r then 1 else 0)
count-found p q [] r o e = absurd (none-ne-some r e)
count-found p q (s ∷ rows) r o e = elim (Bool-cases (p s)) [
  | inr n ↦ rw n (
      plus_zero (count_where (λ t. p t && q t) rows) (if q r then 1 else 0) (
        count-found p q rows r
          (less (count_where p rows)
            (subst (λ b. (if b then 1 else 0) + count_where p rows ≡ 1) n o))
          (subst (λ b. (if b then some s else find_where p rows) ≡ some r) n e)))
  | inl y ↦
      let same : s ≡ r =
        some-injective s r (subst (λ b. (if b then some s else find_where p rows) ≡ some r) y e) in
      let rest : count_where p rows ≡ 0 =
        no_more (count_where p rows)
          (subst (λ b. (if b then 1 else 0) + count_where p rows ≡ 1) y o) in
      rw y (
        subst
          (λ x.
            (if q s then 1 else 0) + count_where (λ t. p t && q t) rows ≡ (if q x then 1 else 0))
          same
          (none_added (if q s then 1 else 0) (count_where (λ t. p t && q t) rows)
            (count_where p rows) rest (count_where-and p q rows)))
]

-- The test of a claim is that of the lock.
claimable-lock :
    (job : String) (now : Instant) (r : SearchRow)
    → shaped r ≡ true
    → claimable job now r ≡ (lapsed now (lock r) || owns job (lock r))
claimable-lock job now r h = rw (shaped-lapsed now r h, shaped-owns job r h) refl

one_or_none : (b : Bool) → ((if b then 1 else 0) == 1) ≡ b
one_or_none true = refl
one_or_none false = refl

-- A key that is in a well-formed table is there once.
count-key :
    (id : ℕ) (language : String) (rows : List SearchRow)
    → unique rows ≡ true
    → any (is_row id language) rows ≡ true
    → count_where (is_row id language) rows ≡ 1
unfolding unique
count-key id language [] u h = absurd (false≢true h)
count-key id language (r ∷ rows) u h = elim (Bool-cases (is_row id language r)) [
  | inr n ↦ rw n (
      plus_zero (count_where (is_row id language) rows) 1 (
        count-key id language rows (and_right (not (any (key_of r) rows)) (unique rows) u)
          (subst (λ b. (if b then true else any (is_row id language) rows) ≡ true) n h)))
  | inl y ↦
      let (i, l) = key_eq id language r y in
      let none_later : any (is_row id language) rows ≡ false =
        subst (λ x. any (is_row x language) rows ≡ false) i
          (subst (λ x. any (is_row r.media_id x) rows ≡ false) l
            (negated (any (key_of r) rows)
              (and_left (not (any (key_of r) rows)) (unique rows) u))) in
      rw (y, any-count_where (is_row id language) rows none_later) refl
]

key_other :
    (id : ℕ) (language : String) (id' : ℕ) (language' : String) (r : SearchRow)
    → (id == id' && str_eq language language') ≡ false
    → is_row id' language' r ≡ true
    → is_row id language r ≡ false
key_other id language id' language' r d k = elim (Bool-cases (is_row id language r)) [
  | inr n ↦ n
  | inl y ↦
      let (i, l) = key_eq id language r y in
      let (i', l') = key_eq id' language' r k in
      absurd (
        true≢false (
          sym (
            and_true (id == id') (str_eq language language') ((==_iff id id').1 (sym i ∙ i'))
              ((eq_iff language language').1 (sym l ∙ l')))
          ∙ d))
]

module _ (o : QueueOrder) (id : ℕ) (language job : String) (now : Instant) (lease : Duration) where
  abbrev pub after_claim : List SearchRow → List SearchRow
  after_claim rows =
      upsert (claim_row job (now + lease) (new_row o id language now missing_priority))
        (claimable job now) (claim_row job (now + lease)) rows

  own-row :
      (r : SearchRow)
      → shaped r ≡ true
      → is_row id language r ≡ true
      → lock
          (if is_row id language r && claimable job now r then claim_row job (now + lease) r else r)
        ≡ (if lapsed now (lock r) || owns job (lock r) then some (job, now + lease) else lock r)
  unfolding claim_row
  own-row r good mine = elim (Bool-cases (claimable job now r)) [
    | inl c ↦ rw (mine, c, sym (claimable-lock job now r good) ∙ c) refl
    | inr c ↦ rw (mine, c, sym (claimable-lock job now r good) ∙ c) refl
  ]

  -- Its own lock, and what the caller is told.
  pub claim-own :
      (rows : List SearchRow)
      → all_rows shaped rows ≡ true
      → locks_of (after_claim rows) id language ≡ (
          if lapsed now (locks_of rows id language) || owns job (locks_of rows id language)
          then some (job, now + lease)
          else locks_of rows id language)
  unfolding claim_row
  claim-own rows h = elim (Bool-cases (any (is_row id language) rows)) [
    | inr n ↦
        rw
          (
            n,
            find-append (is_row id language) rows
                (claim_row job (now + lease) (new_row o id language now missing_priority)) n,
            is_row_self (new_row o id language now missing_priority),
            any-find (is_row id language) rows n,
          )
          refl
    | inl y ↦
        let (r, e) = any-found (is_row id language) rows y in
        let (good, mine) = found-passes shaped (is_row id language) rows r h e in
        rw y (
          ap lock_of (
            find-update_where id language (λ s. is_row id language s && claimable job now s)
              (claim_row job (now + lease)) (claim_row-key job (now + lease)) rows)
          ∙ rw e (own-row r good mine))
  ]

  pub claim-answer :
      (rows : List SearchRow)
      → IsTable rows
      → (not (any (is_row id language) rows)
          || count_where (λ s. is_row id language s && claimable job now s) rows == 1)
        ≡ (lapsed now (locks_of rows id language) || owns job (locks_of rows id language))
  claim-answer rows (h, u) = elim (Bool-cases (any (is_row id language) rows)) [
    | inr n ↦ rw (n, any-find (is_row id language) rows n) refl
    | inl y ↦
        let (r, e) = any-found (is_row id language) rows y in
        let (good, mine) = found-passes shaped (is_row id language) rows r h e in
        rw
          (
            y,
            e,
            count-found (is_row id language) (claimable job now) rows r
                (count-key id language rows u y) e,
          )
          (one_or_none (claimable job now r) ∙ claimable-lock job now r good)
  ]

  -- The other locks.
  pub claim-other :
      (rows : List SearchRow) (id' : ℕ) (language' : String)
      → all_rows shaped rows ≡ true
      → (id == id' && str_eq language language') ≡ false
      → locks_of (after_claim rows) id' language' ≡ locks_of rows id' language'
  unfolding claim_row
  claim-other rows id' language' h d = elim (Bool-cases (any (is_row id language) rows)) [
    | inr n ↦ rw n (
        ap lock_of (
          find-append-other (is_row id' language') rows
            (claim_row job (now + lease) (new_row o id language now missing_priority)) d))
    | inl y ↦ rw y (
        lock-update_where id' language' (λ s. is_row id language s && claimable job now s)
          (claim_row job (now + lease)) (λ l. l) (claim_row-key job (now + lease)) refl
          (λ r _ k. rw (key_other id language id' language' r d k) refl) rows h)
  ]
