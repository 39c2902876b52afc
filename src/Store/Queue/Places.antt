-- ===== src/Store/Queue/Places.antt =====
-- A statement that selects one row of a table of searches, at its place.
use mathlib.Core.Bool.{true≢false}
use subsyncd.Store.Queue.Rows.{SearchRow, find_where, count_where, update_where, is_row, upsert}
use subsyncd.Common.{
  Bool, List, ◌≡◌, any, true, false, ◌++◌, ◌∷◌, arith, Bool-cases, some, [], inl, subst, refl,
  if◌then◌else◌, inr, ◌&&◌,
}
use subsyncd.Store.Queue.Counts.{update_where-unmet, any-count_where}

-- The rows of a table around one of them.
module _ (p : SearchRow → Bool) (r : SearchRow) (after : List SearchRow) where
  pub update_where-at :
      (f : SearchRow → SearchRow) (before : List SearchRow)
      → any p before ≡ false
      → any p after ≡ false
      → p r ≡ true
      → update_where p f (before ++ r ∷ after) ≡ before ++ f r ∷ after
  update_where-at f [] b a y = rw (y, update_where-unmet p f after a) refl
  update_where-at f (s ∷ before) b a y = elim (Bool-cases (p s)) [
    | inl t ↦ absurd (true≢false (subst (λ x. (if x then true else any p before) ≡ false) t b))
    | inr n ↦
        rw
          (
            n,
            update_where-at f before (subst (λ x. (if x then true else any p before) ≡ false) n b) a
                y,
          )
          refl
  ]

  pub count_where-at :
      (before : List SearchRow)
      → any p before ≡ false
      → any p after ≡ false
      → p r ≡ true
      → count_where p (before ++ r ∷ after) ≡ 1
  count_where-at [] b a y = rw (y, any-count_where p after a) refl
  count_where-at (s ∷ before) b a y = ground (arith, count_where-at before)

  pub any-at : (before : List SearchRow) → p r ≡ true → any p (before ++ r ∷ after) ≡ true
  any-at [] y = rw y refl
  any-at (s ∷ before) y = ground (arith, any-at before)

  pub find_where-at :
      (before : List SearchRow)
      → any p before ≡ false
      → p r ≡ true
      → find_where p (before ++ r ∷ after) ≡ some r
  find_where-at [] b y = rw y refl
  find_where-at (s ∷ before) b y = elim (Bool-cases (p s)) [
    | inl t ↦ absurd (true≢false (subst (λ x. (if x then true else any p before) ≡ false) t b))
    | inr n ↦
        rw (n, find_where-at before (subst (λ x. (if x then true else any p before) ≡ false) n b) y)
          refl
  ]

-- No row of the table around a place passes a test.
abbrev pub Alone : (SearchRow → Bool) → List SearchRow → List SearchRow → Type 0
Alone p before after = (any p before ≡ false) × (any p after ≡ false)

pub any_and :
    (p q : SearchRow → Bool) (rows : List SearchRow)
    → any p rows ≡ false
    → any (λ r. p r && q r) rows ≡ false
any_and p q [] h = refl
any_and p q (r ∷ rows) h = ground (arith, any_and p q rows)

-- An insert that meets its key at a place, and updates the row there or leaves it.
pub upsert-at :
    (new : SearchRow) (q : SearchRow → Bool) (f : SearchRow → SearchRow) (before : List SearchRow)
    (r : SearchRow) (after : List SearchRow)
    → is_row new.media_id new.language r ≡ true
    → Alone (is_row new.media_id new.language) before after
    → q r ≡ true
    → upsert new q f (before ++ r ∷ after) ≡ before ++ f r ∷ after
upsert-at new q f before r after k (b, a) y =
    let key = is_row new.media_id new.language in
    rw (any-at key r after before k) (
      update_where-at (λ s. key s && q s) r after f before (any_and key q before b)
        (any_and key q after a) (rw (k, y) refl))
