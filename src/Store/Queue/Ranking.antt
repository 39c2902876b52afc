-- ===== src/Store/Queue/Ranking.antt =====
-- The order in which due searches are leased (internal/store/repository.go,
-- `LeaseDueSearchesExcept`).
use Prim.Native.Nat.{Ordering, compare}
use Prim.Native.String.{then as or_then, compare as compare_text}
use subsyncd.Common.{
  Bool, ℕ, List, ◌≡◌, ltb, length, not, ◌∷◌, ◌&&◌, true, if◌then◌else◌, keep, ◌||◌, [], take, arith,
  Bool-cases, ◌∙◌, false, drop, refl, suc, inl, sym, ◌==◌, ◌+◌, zero, inr, min, length-take, ap,
  and_right, and_true, and_left, negated,
}
use subsyncd.Store.Queue.Rows.{SearchRow, Media, count_where}
use subsyncd.Store.Queue.Resume.{Repository}
use subsyncd.Store.Queue.Shape.{all_rows}
use subsyncd.Common.Time.{Instant}
use subsyncd.Store.Queue.Due.{
  due_searches, queue_compare, sort_rows, insert_row, PausedRoute, is_due,
}
use subsyncd.Common.Text.{String, str_eq}
use subsyncd.Store.Queue.Order.{is_lt, is_gt, not_after_trans, queue_compare-IsOrder, flip}

-- A text stands before another, byte by byte.
abbrev pub text_before : String → String → Bool
text_before s t = is_lt (compare_text s t)

-- The order of the media, and of the languages of one.
abbrev pub media_before : SearchRow → SearchRow → Bool
media_before r s =
    text_before r.sort_title s.sort_title
    || str_eq r.sort_title s.sort_title
      && (ltb r.sort_series s.sort_series
          || r.sort_series == s.sort_series
            && (ltb r.sort_season s.sort_season
                || r.sort_season == s.sort_season
                  && (ltb r.sort_episode s.sort_episode
                      || r.sort_episode == s.sort_episode
                        && (ltb r.media_id s.media_id
                            || r.media_id == s.media_id && text_before r.language s.language))))

-- The first is to run before the second: by priority and by the rank of its instance, the higher
-- first; then by its place in the queue and by the time of its attempt, the earlier first; and then
-- by title, series, season, episode, media and language.
abbrev pub outranks : SearchRow → SearchRow → Bool
outranks r s =
    ltb s.priority r.priority
    || s.priority == r.priority
      && (ltb s.instance_rank r.instance_rank
          || s.instance_rank == r.instance_rank
            && (ltb r.queue_order s.queue_order
                || r.queue_order == s.queue_order
                  && (ltb r.next_attempt_at s.next_attempt_at
                      || r.next_attempt_at == s.next_attempt_at && media_before r s)))

abbrev pub no_better : SearchRow → SearchRow → Bool
no_better r s = not (outranks s r)

number_key :
    (m n : ℕ) (o : Ordering) (rest : Bool)
    → rest ≡ is_lt o
    → (ltb m n || m == n && rest) ≡ is_lt (or_then (compare m n) o)
number_key m n o rest h = ground arith

text_key :
    (s t : String) (o : Ordering) (rest : Bool)
    → rest ≡ is_lt o
    → (text_before s t || str_eq s t && rest) ≡ is_lt (or_then (compare_text s t) o)
text_key s t o rest h = ground arith

abbrev media_order : SearchRow → SearchRow → Ordering
media_order r s = or_then (compare_text r.sort_title s.sort_title) (
    or_then (compare r.sort_series s.sort_series) (
      or_then (compare r.sort_season s.sort_season) (
        or_then (compare r.sort_episode s.sort_episode)
          (or_then (compare r.media_id s.media_id) (compare_text r.language s.language)))))

media_key : (r s : SearchRow) → media_before r s ≡ is_lt (media_order r s)
media_key r s = text_key r.sort_title s.sort_title _ _ (
    number_key r.sort_series s.sort_series _ _ (
      number_key r.sort_season s.sort_season _ _ (
        number_key r.sort_episode s.sort_episode _ _
          (number_key r.media_id s.media_id (compare_text r.language s.language) _ refl))))

outranks_lem : (r s : SearchRow) → outranks r s ≡ is_lt (queue_compare r s)
unfolding queue_compare
outranks_lem r s = number_key s.priority r.priority _ _ (
    number_key s.instance_rank r.instance_rank _ _ (
      number_key r.queue_order s.queue_order _ _
        (number_key r.next_attempt_at s.next_attempt_at _ _ (media_key r s))))

flipped_gt : (o : Ordering) → is_gt o ≡ true → is_lt o ≡ false
flipped_gt o h = ground arith

flipped_lt : (o : Ordering) → is_lt (flip o) ≡ is_gt o
flipped_lt o = ground arith

-- A row is no better than another where it does not come before that one.
no_better_lem : (r s : SearchRow) → no_better r s ≡ not (is_gt (queue_compare r s))
no_better_lem r s =
    ap not (
      outranks_lem s r ∙ ap is_lt (queue_compare-IsOrder.swap r s) ∙ flipped_lt (queue_compare r s))

compare-gt : (r s : SearchRow) → is_gt (queue_compare r s) ≡ true → no_better s r ≡ true
compare-gt r s h = ap not (outranks_lem r s ∙ flipped_gt (queue_compare r s) h)

compare-le : (r s : SearchRow) → is_gt (queue_compare r s) ≡ false → no_better r s ≡ true
compare-le r s h = no_better_lem r s ∙ ap not h

no_better_trans :
    (r s t : SearchRow) → no_better r s ≡ true → no_better s t ≡ true → no_better r t ≡ true
no_better_trans r s t h k =
    let le = λ (x y : SearchRow) (p : no_better x y ≡ true).
      negated (is_gt (queue_compare x y)) (sym (no_better_lem x y) ∙ p) in
    compare-le r t (
      not_after_trans (queue_compare r s) (queue_compare s t) (queue_compare r t)
        (queue_compare-IsOrder.chain r s t) (le r s h) (le s t k))

-- Sorted: no row is better than one before it.
abbrev pub sorted : List SearchRow → Bool
sorted [] = true
sorted (r ∷ rows) = let rest = sorted rows in all_rows (no_better r) rows && rest

all_rows-no_better :
    (r s : SearchRow) (rows : List SearchRow)
    → no_better r s ≡ true
    → all_rows (no_better s) rows ≡ true
    → all_rows (no_better r) rows ≡ true
all_rows-no_better r s [] h k = refl
all_rows-no_better r s (t ∷ rows) h k =
    let here : no_better r t ≡ true =
      no_better_trans r s t h (and_left (no_better s t) (all_rows (no_better s) rows) k) in
    and_true (no_better r t) (all_rows (no_better r) rows) here
      (all_rows-no_better r s rows h (and_right (no_better s t) (all_rows (no_better s) rows) k))

ordering_cases :
    (o : Ordering) (xs ys : List SearchRow)
    → (elim o [ Ordering.gt ↦ xs | _ ↦ ys ]) ≡ (if is_gt o then xs else ys)
ordering_cases Ordering.lt xs ys = refl
ordering_cases Ordering.eq xs ys = refl
ordering_cases Ordering.gt xs ys = refl

pub insert_row-if :
    (r s : SearchRow) (rows : List SearchRow)
    → insert_row r (s ∷ rows)
      ≡ (if is_gt (queue_compare r s) then s ∷ insert_row r rows else r ∷ s ∷ rows)
unfolding insert_row
insert_row-if r s rows = ordering_cases (queue_compare r s) (s ∷ insert_row r rows) (r ∷ s ∷ rows)

swap_and : (a b c : Bool) → (b && (a && c)) ≡ (a && (b && c))
swap_and a b c = ground arith

pub all_rows-insert_row :
    (g : SearchRow → Bool) (r : SearchRow) (rows : List SearchRow)
    → all_rows g (insert_row r rows) ≡ (g r && all_rows g rows)
unfolding insert_row
all_rows-insert_row g r [] = refl
all_rows-insert_row g r (s ∷ rows) = elim (Bool-cases (is_gt (queue_compare r s))) [
  | inl y ↦
      rw (insert_row-if r s rows, y, all_rows-insert_row g r rows)
        (swap_and (g r) (g s) (all_rows g rows))
  | inr n ↦ rw (insert_row-if r s rows, n) refl
]

pub count_where-insert_row :
    (p : SearchRow → Bool) (r : SearchRow) (rows : List SearchRow)
    → count_where p (insert_row r rows) ≡ count_where p (r ∷ rows)
unfolding insert_row
count_where-insert_row p r [] = refl
count_where-insert_row p r (s ∷ rows) = elim (Bool-cases (is_gt (queue_compare r s))) [
  | inl y ↦ rw (insert_row-if r s rows, y, count_where-insert_row p r rows) (omega arith)
  | inr n ↦ rw (insert_row-if r s rows, n) refl
]

insert_row-sorted :
    (r : SearchRow) (rows : List SearchRow) → sorted rows ≡ true → sorted (insert_row r rows) ≡ true
unfolding insert_row
insert_row-sorted r [] h = refl
insert_row-sorted r (s ∷ rows) h =
    let first = and_left (all_rows (no_better s) rows) (sorted rows) h in
    let rest = and_right (all_rows (no_better s) rows) (sorted rows) h in
    elim (Bool-cases (is_gt (queue_compare r s))) [
      | inl y ↦
          rw
            (
              insert_row-if r s rows,
              y,
              all_rows-insert_row (no_better s) r rows,
              compare-gt r s y,
              first,
              insert_row-sorted r rows rest,
            )
            refl
      | inr n ↦
          rw (insert_row-if r s rows, n)
            (and_true (all_rows (no_better r) (s ∷ rows)) (sorted (s ∷ rows))
              (and_true (no_better r s) (all_rows (no_better r) rows) (compare-le r s n)
                (all_rows-no_better r s rows (compare-le r s n) first))
              h)
    ]

sort_rows-sorted : (rows : List SearchRow) → sorted (sort_rows rows) ≡ true
unfolding sort_rows
sort_rows-sorted [] = refl
sort_rows-sorted (r ∷ rows) = insert_row-sorted r (sort_rows rows) (sort_rows-sorted rows)

pub count_where-sort_rows :
    (p : SearchRow → Bool) (rows : List SearchRow)
    → count_where p (sort_rows rows) ≡ count_where p rows
unfolding sort_rows
count_where-sort_rows p [] = refl
count_where-sort_rows p (r ∷ rows) =
    rw (count_where-insert_row p r (sort_rows rows), count_where-sort_rows p rows) refl

count_where-keep :
    (p q : SearchRow → Bool) (rows : List SearchRow)
    → count_where p (keep q rows) ≡ count_where (λ r. q r && p r) rows
count_where-keep p q [] = refl
count_where-keep p q (r ∷ rows) = ground (arith, count_where-keep p q rows)

count_where-split :
    (p : SearchRow → Bool) (n : ℕ) (rows : List SearchRow)
    → count_where p (take n rows) + count_where p (drop n rows) ≡ count_where p rows
count_where-split p zero rows = omega arith
count_where-split p (suc n) [] = refl
count_where-split p (suc n) (r ∷ rows) = omega (arith, count_where-split p n rows)

pub all_rows-drop :
    (g : SearchRow → Bool) (n : ℕ) (rows : List SearchRow)
    → all_rows g rows ≡ true
    → all_rows g (drop n rows) ≡ true
all_rows-drop g zero rows h = h
all_rows-drop g (suc n) [] h = h
all_rows-drop g (suc n) (r ∷ rows) h = all_rows-drop g n rows (and_right (g r) (all_rows g rows) h)

take-no_better :
    (n : ℕ) (rows : List SearchRow)
    → sorted rows ≡ true
    → all_rows (λ t. all_rows (no_better t) (drop n rows)) (take n rows) ≡ true
take-no_better zero rows h = refl
take-no_better (suc n) [] h = refl
take-no_better (suc n) (r ∷ rows) h =
    and_true (all_rows (no_better r) (drop n rows)) _
      (all_rows-drop (no_better r) n rows (and_left (all_rows (no_better r) rows) (sorted rows) h))
      (take-no_better n rows (and_right (all_rows (no_better r) rows) (sorted rows) h))

pub all_rows-take :
    (g : SearchRow → Bool) (n : ℕ) (rows : List SearchRow)
    → all_rows g rows ≡ true
    → all_rows g (take n rows) ≡ true
all_rows-take g zero rows h = refl
all_rows-take g (suc n) [] h = h
all_rows-take g (suc n) (r ∷ rows) h =
    and_true (g r) (all_rows g (take n rows)) (and_left (g r) (all_rows g rows) h)
      (all_rows-take g n rows (and_right (g r) (all_rows g rows) h))

take-sorted : (n : ℕ) (rows : List SearchRow) → sorted rows ≡ true → sorted (take n rows) ≡ true
take-sorted zero rows h = refl
take-sorted (suc n) [] h = refl
take-sorted (suc n) (r ∷ rows) h =
    and_true (all_rows (no_better r) (take n rows)) (sorted (take n rows))
      (all_rows-take (no_better r) n rows (and_left (all_rows (no_better r) rows) (sorted rows) h))
      (take-sorted n rows (and_right (all_rows (no_better r) rows) (sorted rows) h))

length-count_where : (rows : List SearchRow) → length rows ≡ count_where (λ _. true) rows
length-count_where [] = refl
length-count_where (r ∷ rows) = omega (arith, length-count_where rows)

length-sort_rows : (rows : List SearchRow) → length (sort_rows rows) ≡ length rows
length-sort_rows rows =
    length-count_where (sort_rows rows)
    ∙ count_where-sort_rows (λ _. true) rows
    ∙ sym (length-count_where rows)

length-keep :
    (q : SearchRow → Bool) (rows : List SearchRow) → length (keep q rows) ≡ count_where q rows
length-keep q [] = refl
length-keep q (r ∷ rows) = ground (arith, length-keep q rows)

-- The due searches that the limit leaves out.
abbrev pub left_out :
    Repository → Media → Instant → ℕ → List PausedRoute → List SearchRow → List SearchRow
left_out repo media now limit paused rows =
    drop limit (sort_rows (keep (is_due repo media now paused) rows))

-- The due searches are selected and left out once each, and no other search is; those selected are
-- as many as the limit allows and stand in the order of the queue, by priority, rank of the
-- instance, place in the queue, time of the attempt, title, series, season, episode, media and
-- language; and no search that is left out comes before one that is selected.
pub due_searches-ranked :
    (repo : Repository) (media : Media) (now : Instant) (limit : ℕ) (paused : List PausedRoute)
    (rows : List SearchRow) (p : SearchRow → Bool)
    → (count_where p (due_searches repo media now limit paused rows)
          + count_where p (left_out repo media now limit paused rows)
        ≡ count_where (λ r. is_due repo media now paused r && p r) rows)
      × (sorted (due_searches repo media now limit paused rows) ≡ true)
      × (all_rows
            (λ t. all_rows (no_better t) (left_out repo media now limit paused rows))
            (due_searches repo media now limit paused rows)
          ≡ true)
      × (length (due_searches repo media now limit paused rows)
          ≡ min limit (count_where (is_due repo media now paused) rows))
unfolding due_searches
due_searches-ranked repo media now limit paused rows p =
    let all = sort_rows (keep (is_due repo media now paused) rows) in
    let order = sort_rows-sorted (keep (is_due repo media now paused) rows) in
    (
      count_where-split p limit all
          ∙ count_where-sort_rows p (keep (is_due repo media now paused) rows)
          ∙ count_where-keep p (is_due repo media now paused) rows,
      take-sorted limit all order,
      take-no_better limit all order,
      length-take limit all
          ∙ ap (min limit) (
              length-sort_rows (keep (is_due repo media now paused) rows)
              ∙ length-keep (is_due repo media now paused) rows),
    )
