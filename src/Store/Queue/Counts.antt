-- ===== src/Store/Queue/Counts.antt =====
-- A table with one row of each key: every row is found once by its key.
use mathlib.Core.Bool.{true≢false}
use subsyncd.Common.{
  Bool, ℕ, List, any, ◌==◌, ◌≡◌, not, false, ◌&&◌, true, ◌≤◌, arith, ◌∷◌, Bool-cases, [], sym, ◌||◌,
  inl, refl, inr, ◌≢◌, subst, if◌then◌else◌, ==_iff, and_left, and_true, and_right, negated,
}
use subsyncd.Store.Queue.Rows.{SearchRow, count_where, is_row, update_where}
use subsyncd.Store.Queue.Shape.{unique, all_rows}
use subsyncd.Common.Text.{str_eq, eq_iff, String}
use subsyncd.Store.Queue.Inserts.{is_row_sym}

abbrev pub key_of : SearchRow → SearchRow → Bool
key_of d = is_row d.media_id d.language

eq_self : (n : ℕ) → (n == n) ≡ true
eq_self n = ground arith

one_not_zero : (n : ℕ) → n ≡ 1 → n ≢ 0
one_not_zero n h k = omega arith

pub is_row_self : (r : SearchRow) → key_of r r ≡ true
is_row_self r =
    and_true (r.media_id == r.media_id) (str_eq r.language r.language) (eq_self r.media_id)
      ((eq_iff r.language r.language).1 refl)

pub any-count_where :
    (p : SearchRow → Bool) (rows : List SearchRow) → any p rows ≡ false → count_where p rows ≡ 0
any-count_where p [] h = refl
any-count_where p (r ∷ rows) h = ground (arith, any-count_where p rows)

pub count_where-any :
    (p : SearchRow → Bool) (rows : List SearchRow) → count_where p rows ≡ 1 → any p rows ≡ true
count_where-any p rows h = elim (Bool-cases (any p rows)) [
  | inl y ↦ y
  | inr n ↦ absurd (one_not_zero (count_where p rows) h (any-count_where p rows n))
]

pub update_where-unmet :
    (p : SearchRow → Bool) (f : SearchRow → SearchRow) (rows : List SearchRow)
    → any p rows ≡ false
    → update_where p f rows ≡ rows
update_where-unmet p f [] h = refl
update_where-unmet p f (r ∷ rows) h = elim (Bool-cases (p r)) [
  | inl y ↦ absurd (true≢false (subst (λ b. (if b then true else any p rows) ≡ false) y h))
  | inr n ↦
      rw
        (n, update_where-unmet p f rows (subst (λ b. (if b then true else any p rows) ≡ false) n h))
        refl
]

-- What holds of no row of a table does not, of each.
pub any-all_rows :
    (p q : SearchRow → Bool) (rows : List SearchRow)
    → ((r : SearchRow) → p r ≡ false → q r ≡ true)
    → any p rows ≡ false
    → all_rows q rows ≡ true
any-all_rows p q [] f h = refl
any-all_rows p q (r ∷ rows) f h = ground (arith, f r, any-all_rows p q rows f)

-- Two tests of all rows give a third.
pub all_rows-map2 :
    (p q g : SearchRow → Bool)
    → ((r : SearchRow) → p r ≡ true → q r ≡ true → g r ≡ true)
    → (rows : List SearchRow) → all_rows p rows ≡ true
    → all_rows q rows ≡ true
    → all_rows g rows ≡ true
all_rows-map2 p q g f [] h k = refl
all_rows-map2 p q g f (r ∷ rows) h k = ground (arith, f r, all_rows-map2 p q g f rows)

abbrev pub once_in : List SearchRow → SearchRow → Bool
once_in rows d = count_where (key_of d) rows == 1

once_more :
    (d r : SearchRow) (rows : List SearchRow)
    → not (key_of r d) ≡ true
    → once_in rows d ≡ true
    → once_in (r ∷ rows) d ≡ true
once_more d r rows h k = rw (sym (is_row_sym r d), negated (key_of r d) h) (ground arith)

pub unique-once_in :
    (rows : List SearchRow) → unique rows ≡ true → all_rows (once_in rows) rows ≡ true
unfolding unique
unique-once_in [] h = refl
unique-once_in (r ∷ rows) h =
    let none_later : any (key_of r) rows ≡ false =
      negated (any (key_of r) rows) (and_left (not (any (key_of r) rows)) (unique rows) h) in
    let rest = unique-once_in rows (and_right (not (any (key_of r) rows)) (unique rows) h) in
    and_true (once_in (r ∷ rows) r) (all_rows (once_in (r ∷ rows)) rows)
      (rw (is_row_self r, any-count_where (key_of r) rows none_later) refl)
      (all_rows-map2 (λ d. not (key_of r d)) (once_in rows) (once_in (r ∷ rows))
        (λ d. once_more d r rows) rows
        (any-all_rows (key_of r) (λ d. not (key_of r d)) rows (λ d n. rw n refl) none_later) rest)

-- An update leaves a count whose test it keeps.
pub count_where-update_where :
    (q p : SearchRow → Bool) (f : SearchRow → SearchRow)
    → ((r : SearchRow) → p r ≡ true → q (f r) ≡ q r)
    → (rows : List SearchRow) → count_where q (update_where p f rows) ≡ count_where q rows
count_where-update_where q p f same [] = refl
count_where-update_where q p f same (r ∷ rows) = elim (Bool-cases (p r)) [
  | inl y ↦ rw (y, same r y, count_where-update_where q p f same rows) refl
  | inr n ↦ rw (n, count_where-update_where q p f same rows) refl
]

pub count_where-and :
    (p q : SearchRow → Bool) (rows : List SearchRow)
    → count_where (λ r. p r && q r) rows ≤ count_where p rows
count_where-and p q [] = omega arith
count_where-and p q (r ∷ rows) = ground (arith, count_where-and p q rows)

-- As many rows pass both tests as pass the first: those that pass the first pass the second.
pub count_where-all_rows :
    (p q : SearchRow → Bool) (rows : List SearchRow)
    → count_where p rows ≡ count_where (λ r. p r && q r) rows
    → all_rows (λ r. not (p r) || q r) rows ≡ true
count_where-all_rows p q [] h = refl
count_where-all_rows p q (r ∷ rows) h =
    ground (arith, count_where-all_rows p q rows, count_where-and p q rows)

-- The row of a key has that key.
pub key_eq :
    (id : ℕ) (language : String) (r : SearchRow)
    → is_row id language r ≡ true
    → (r.media_id ≡ id) × (r.language ≡ language)
key_eq id language r h = (
  (==_iff r.media_id id).0 (and_left (r.media_id == id) (str_eq r.language language) h),
  (eq_iff r.language language).0 (and_right (r.media_id == id) (str_eq r.language language) h),
)
