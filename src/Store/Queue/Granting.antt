-- ===== src/Store/Queue/Granting.antt =====
-- `LeaseDueSearchesExcept` (internal/store/repository.go) leases all that it selects.
use mathlib.Core.Bool.{true≢false}
use subsyncd.Common.Time.{Instant}
use subsyncd.Store.Queue.Resume.{Repository}
use subsyncd.Store.Queue.Rows.{SearchRow, update_where, count_where, is_row, lease_free}
use subsyncd.Store.Queue.Counts.{
  key_of, count_where-update_where, once_in, count_where-any, all_rows-map2, count_where-all_rows,
  any-all_rows,
}
use subsyncd.Common.Text.{String, str_eq, eq_iff}
use subsyncd.Common.{
  List, ◌≡◌, Bool, true, if◌then◌else◌, false, refl, ◌==◌, Bool-cases, ◌&&◌, inl, inr, sym, Option,
  ℕ, arith, some, ==_iff, ◌∷◌, leb, suc, [], ◌∙◌, ◌≤◌, map, ◌<◌, not, length, any, ◌||◌, subst,
  and_right, and_left, and_true, negated,
}
use subsyncd.Store.Queue.Shape.{unique, all_rows, any-update_where}
use subsyncd.Store.Queue.Holding.{guards, IsHeld, held}
use subsyncd.Store.Queue.Keeps.{claim_row-key}
use subsyncd.Store.Queue.Grants.{
  resume_of, SearchLease, reset_resume, lease_rows, lease_row, lease_of,
}
use subsyncd.Store.Queue.Leases.{claim_row}
use subsyncd.Store.Queue.TableLeases.{rows_or}
use subsyncd.Store.Queue.HeldLeases.{lease_rows-Held}

-- The rows that the claim of a selected search may take.
abbrev pub free_at : Instant → SearchRow → SearchRow → Bool
free_at now d s = is_row d.media_id d.language s && lease_free now s

-- The claim takes one row.
abbrev pub takes_one : Instant → List SearchRow → SearchRow → Bool
takes_one now rows d = count_where (free_at now d) rows == 1 && once_in rows d

reset-free_at : (now : Instant) (d r : SearchRow) → free_at now d (reset_resume r) ≡ free_at now d r
unfolding reset_resume
reset-free_at now d r = refl

cleaned : Repository → Instant → SearchRow → List SearchRow → List SearchRow
cleaned repo now r rows =
    if (resume_of repo now r).1
    then update_where (is_row r.media_id r.language) reset_resume rows
    else rows

count-cleaned :
    (repo : Repository) (now : Instant) (r d : SearchRow) (rows : List SearchRow)
    → count_where (free_at now d) (cleaned repo now r rows) ≡ count_where (free_at now d) rows
unfolding cleaned
count-cleaned repo now r d rows = elim (Bool-cases (resume_of repo now r).1) [
  | inl y ↦ rw y (
      count_where-update_where (free_at now d) (is_row r.media_id r.language) reset_resume
        (λ s _. reset-free_at now d s) rows)
  | inr n ↦ rw n refl
]

key-cleaned :
    (repo : Repository) (now : Instant) (r d : SearchRow) (rows : List SearchRow)
    → count_where (key_of d) (cleaned repo now r rows) ≡ count_where (key_of d) rows
unfolding cleaned reset_resume
key-cleaned repo now r d rows = elim (Bool-cases (resume_of repo now r).1) [
  | inl y ↦ rw y (
      count_where-update_where (key_of d) (is_row r.media_id r.language) reset_resume (λ s _. refl)
        rows)
  | inr n ↦ rw n refl
]

-- The rows after the claim, and whether it took one.
lease_row-cleaned :
    (repo : Repository) (now until : Instant) (job : String) (r : SearchRow) (rows : List SearchRow)
    → lease_row repo now until job r rows ≡ (
      update_where (free_at now r) (claim_row job until) (cleaned repo now r rows),
      count_where (free_at now r) (cleaned repo now r rows) == 1,
    )
unfolding lease_row cleaned
lease_row-cleaned repo now until job r rows = refl

lease_row-claims :
    (repo : Repository) (now until : Instant) (job : String) (r : SearchRow) (rows : List SearchRow)
    → takes_one now rows r ≡ true
    → (lease_row repo now until job r rows).1 ≡ true
lease_row-claims repo now until job r rows h =
    rw (lease_row-cleaned repo now until job r rows, count-cleaned repo now r r rows)
      (and_left (count_where (free_at now r) rows == 1) (once_in rows r) h)

nat_via : (a b c : ℕ) → (a == b) ≡ true → (a == c) ≡ true → (b == c) ≡ true
nat_via a b c h k = ground arith

text_via : (a b c : String) → str_eq a b ≡ true → str_eq a c ≡ true → str_eq b c ≡ true
text_via a b c h k = (eq_iff b c).1 (sym ((eq_iff a b).0 h) ∙ (eq_iff a c).0 k)

-- A row is of one key only.
key_once : (r d s : SearchRow) → key_of r d ≡ false → key_of r s ≡ true → key_of d s ≡ false
key_once r d s h k = elim (Bool-cases (key_of d s)) [
  | inr n ↦ n
  | inl y ↦ absurd (
      true≢false (
        sym (
          and_true (d.media_id == r.media_id) (str_eq d.language r.language)
            (nat_via s.media_id d.media_id r.media_id
              (and_left (s.media_id == d.media_id) (str_eq s.language d.language) y)
              (and_left (s.media_id == r.media_id) (str_eq s.language r.language) k))
            (text_via s.language d.language r.language
              (and_right (s.media_id == d.media_id) (str_eq s.language d.language) y)
              (and_right (s.media_id == r.media_id) (str_eq s.language r.language) k)))
        ∙ h))
]

-- The claim of one search leaves what another takes.
lease_row-takes_one :
    (repo : Repository) (now until : Instant) (job : String) (r d : SearchRow)
    (rows : List SearchRow)
    → key_of r d ≡ false
    → takes_one now rows d ≡ true
    → takes_one now (lease_row repo now until job r rows).0 d ≡ true
unfolding claim_row
lease_row-takes_one repo now until job r d rows n h =
    rw
      (
        lease_row-cleaned repo now until job r rows,
        count_where-update_where (free_at now d) (free_at now r) (claim_row job until)
            (λ s y. rw (key_once r d s n (and_left (key_of r s) (lease_free now s) y)) refl)
            (cleaned repo now r rows),
        count_where-update_where (key_of d) (free_at now r) (claim_row job until) (λ s y. refl)
            (cleaned repo now r rows),
        count-cleaned repo now r d rows,
        key-cleaned repo now r d rows,
      )
      h

str_eq_self : (t : String) → str_eq t t ≡ true
str_eq_self t = (eq_iff t t).1 refl

leb_self : (n : ℕ) → leb n n ≡ true
leb_self n = ground arith

no_ids : (n : ℕ) → ¬ (suc n ≤ 0)
no_ids n h = omega arith

fewer : (m n : ℕ) → suc m ≤ suc n → m ≤ n
fewer m n h = omega arith

claimed-guards :
    (now until : Instant) (job : String) (r : SearchRow) (rows : List SearchRow)
    → all_rows (λ s. not (key_of r s) || lease_free now s) rows ≡ true
    → all_rows
        (guards r.media_id r.language job until)
        (update_where (free_at now r) (claim_row job until) rows)
      ≡ true
unfolding guards held claim_row
claimed-guards now until job r [] h = refl
claimed-guards now until job r (s ∷ rows) h =
    ground (arith, claimed-guards now until job r rows, str_eq_self job, leb_self until)

-- The claimed search is held by its job.
lease_row-IsHeld :
    (repo : Repository) (now until : Instant) (job : String) (r : SearchRow) (rows : List SearchRow)
    → takes_one now rows r ≡ true
    → IsHeld r.media_id r.language job until (lease_row repo now until job r rows).0
lease_row-IsHeld repo now until job r rows h =
    let one : count_where (free_at now r) rows ≡ 1 =
      (==_iff (count_where (free_at now r) rows) 1).0
        (and_left (count_where (free_at now r) rows == 1) (once_in rows r) h) in
    let once : count_where (key_of r) rows ≡ 1 =
      (==_iff (count_where (key_of r) rows) 1).0
        (and_right (count_where (free_at now r) rows == 1) (once_in rows r) h) in
    let table = cleaned repo now r rows in
    record {
      present =
          rw
            (
              lease_row-cleaned repo now until job r rows,
              any-update_where (free_at now r) (claim_row job until) (claim_row-key job until)
                  r.media_id r.language table,
            )
            (count_where-any (key_of r) table (key-cleaned repo now r r rows ∙ once));
      guarded = rw (lease_row-cleaned repo now until job r rows) (
          claimed-guards now until job r table (
            count_where-all_rows (key_of r) (lease_free now) table (
              key-cleaned repo now r r rows ∙ once ∙ sym (count-cleaned repo now r r rows ∙ one))));
    }

-- The key of a search, and those of the leases.
abbrev pub key : SearchRow → ℕ × String
key r = (r.media_id, r.language)

abbrev pub lease_key : SearchLease → ℕ × String
lease_key l = (l.media_id, l.language)

-- Each lease is in effect in the table, to the time at least.
abbrev pub AllHeld : Instant → List SearchRow → List SearchLease → Type 0
AllHeld until rows [] = Unit {0}
AllHeld until rows (l ∷ leases) =
    IsHeld l.media_id l.language l.job_id until rows × AllHeld until rows leases

abbrev pub Granted : Instant → List SearchRow → Option (List SearchRow × List SearchLease) → Type 0
Granted until due result =
    (rows : List SearchRow) × (leases : List SearchLease) × (result ≡ some (rows, leases))
    × (map lease_key leases ≡ map key due)
    × AllHeld until rows leases

pub lease_rows-Granted :
    (repo : Repository) (now until : Instant) (ids : List String) (due rows : List SearchRow)
    → now < until
    → unique due ≡ true
    → length due ≤ length ids
    → all_rows (takes_one now rows) due ≡ true
    → Granted until due (lease_rows repo now until ids due rows)
unfolding lease_rows lease_of unique
lease_rows-Granted repo now until ids [] rows l u n t = (rows, [], refl, refl, tt)
lease_rows-Granted repo now until [] (r ∷ due) rows l u n t = absurd (no_ids (length due) n)
lease_rows-Granted repo now until (job ∷ ids) (r ∷ due) rows l u n t =
    let here = and_left (takes_one now rows r) (all_rows (takes_one now rows) due) t in
    let alone = and_left (not (any (key_of r) due)) (unique due) u in
    let rows' = (lease_row repo now until job r rows).0 in
    let (last, leases, eq, keys, held_all) =
      lease_rows-Granted repo now until ids due rows' l
        (and_right (not (any (key_of r) due)) (unique due) u) (fewer (length due) (length ids) n)
        (all_rows-map2 (λ d. not (key_of r d)) (takes_one now rows) (takes_one now rows')
          (λ d m. lease_row-takes_one repo now until job r d rows (negated (key_of r d) m)) due
          (any-all_rows (key_of r) (λ d. not (key_of r d)) due (λ d m. rw m refl)
            (negated (any (key_of r) due) alone))
          (and_right (takes_one now rows r) (all_rows (takes_one now rows) due) t)) in
    let mine = lease_row-IsHeld repo now until job r rows here in
    (
      last,
      lease_of repo now until job r ∷ leases,
      rw (eq, lease_row-claims repo now until job r rows here) refl,
      rw keys refl,
      (
        subst (λ x. IsHeld r.media_id r.language job until (rows_or rows' x)) eq
            (lease_rows-Held r.media_id r.language job until repo now until ids due rows' rows' l
              mine mine),
        held_all,
      ),
    )
