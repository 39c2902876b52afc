-- ===== src/Store/Queue/Shape.antt =====
-- A well-formed table of searches (the constraints of internal/store/migrations and what the
-- statements of internal/store/repository.go rely on), and how updates and inserts keep it.
use subsyncd.Common.{
  List, Bool, if◌then◌else◌, ◌≡◌, true, ℕ, none, ◌&&◌, ◌∷◌, sym, false, not, Bool-cases, ◌∙◌, any,
  some, [], ◌||◌, inl, inr, refl, and_left, and_right, and_true,
}
use subsyncd.Store.Queue.Rows.{SearchRow, update_where, is_leased, is_row, valid_search_priority}
use subsyncd.Common.Text.{String}
use subsyncd.Common.Time.{is_zero}

abbrev pub all_rows : (SearchRow → Bool) → List SearchRow → Bool
all_rows p [] = true
all_rows p (r ∷ rows) = let rest = all_rows p rows in p r && rest

abbrev pub has_until : SearchRow → Bool
has_until r = elim r.lease_until [ none ↦ false | some _ ↦ true ]

abbrev pub same_bool : Bool → Bool → Bool
same_bool b c = if b then c else not c

-- The two columns of a lease are set together, only a leased row is to run again, a complete row
-- has no date, and the priority is one of the three.
unfoldable pub shaped : SearchRow → Bool
shaped r =
    same_bool (is_leased r) (has_until r)
    && (not r.rerun_requested || is_leased r)
    && (r.pending || is_zero r.next_attempt_at)
    && valid_search_priority r.priority

-- `UNIQUE(media_id, language)`
unfoldable pub unique : List SearchRow → Bool
unique [] = true
unique (r ∷ rows) = let rest = unique rows in not (any (is_row r.media_id r.language) rows) && rest

abbrev pub IsTable : List SearchRow → Type 0
IsTable rows = (all_rows shaped rows ≡ true) × (unique rows ≡ true)

-- An update keeps the key of a row.
abbrev pub KeepsKey : (SearchRow → SearchRow) → Type 0
KeepsKey f = (r : SearchRow) → ((f r).media_id ≡ r.media_id) × ((f r).language ≡ r.language)

-- An update keeps a test true of the rows that it is made on.
abbrev pub KeepsTest : (SearchRow → Bool) → (SearchRow → Bool) → (SearchRow → SearchRow) → Type 0
KeepsTest g p f = (r : SearchRow) → g r ≡ true → p r ≡ true → g (f r) ≡ true

abbrev pub KeepsShape : (SearchRow → Bool) → (SearchRow → SearchRow) → Type 0
KeepsShape = KeepsTest shaped

pub all_rows-update_where :
    (g p : SearchRow → Bool) (f : SearchRow → SearchRow)
    → KeepsTest g p f
    → (rows : List SearchRow) → all_rows g rows ≡ true
    → all_rows g (update_where p f rows) ≡ true
all_rows-update_where g p f keeps [] h = h
all_rows-update_where g p f keeps (r ∷ rows) h =
    let here = and_left (g r) (all_rows g rows) h in
    let rest = all_rows-update_where g p f keeps rows (and_right (g r) (all_rows g rows) h) in
    elim (Bool-cases (p r)) [
      | inl y ↦
          and_true (g (if p r then f r else r)) (all_rows g (update_where p f rows))
            (rw y (keeps r here y)) rest
      | inr n ↦
          and_true (g (if p r then f r else r)) (all_rows g (update_where p f rows)) (rw n here)
            rest
    ]

pub any-update_where :
    (p : SearchRow → Bool) (f : SearchRow → SearchRow)
    → KeepsKey f
    → (id : ℕ) (language : String) (rows : List SearchRow)
    → any (is_row id language) (update_where p f rows) ≡ any (is_row id language) rows
any-update_where p f keeps id language [] = refl
any-update_where p f keeps id language (r ∷ rows) = elim (Bool-cases (p r)) [
  | inl y ↦ rw (y, (keeps r).0, (keeps r).1, any-update_where p f keeps id language rows) refl
  | inr n ↦ rw (n, any-update_where p f keeps id language rows) refl
]

pub update_where-unique :
    (p : SearchRow → Bool) (f : SearchRow → SearchRow)
    → KeepsKey f
    → (rows : List SearchRow) → unique rows ≡ unique (update_where p f rows)
unfolding unique
update_where-unique p f keeps [] = refl
update_where-unique p f keeps (r ∷ rows) = elim (Bool-cases (p r)) [
  | inl y ↦
      rw
        (
          y,
          (keeps r).0,
          (keeps r).1,
          any-update_where p f keeps r.media_id r.language rows,
          update_where-unique p f keeps rows,
        )
        refl
  | inr n ↦
      rw
        (
          n,
          any-update_where p f keeps r.media_id r.language rows,
          update_where-unique p f keeps rows,
        )
        refl
]

-- An update that keeps keys and shapes keeps a well-formed table.
pub update_where-IsTable :
    (p : SearchRow → Bool) (f : SearchRow → SearchRow)
    → KeepsKey f
    → KeepsShape p f
    → (rows : List SearchRow) → IsTable rows
    → IsTable (update_where p f rows)
update_where-IsTable p f key shape rows (h, u) =
    (all_rows-update_where shaped p f shape rows h, sym (update_where-unique p f key rows) ∙ u)
