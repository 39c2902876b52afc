-- ===== src/Store/Queue/Holding.antt =====
-- A search that one job holds until a time, and the updates of internal/store that leave it so.
use mathlib.Core.Bool.{true≢false, false≢true}
use subsyncd.Common.{
  ℕ, ◌≡◌, Bool, List, any, ◌&&◌, not, true, none, ◌<◌, ◌||◌, false, Option-cases, arith, inl, some,
  Bool-cases, leb, inr, sym, ==_iff, ◌∙◌, ap, ◌==◌, subst, refl, Option, and_left, and_right,
}
use subsyncd.Common.Text.{String, str_eq, eq_iff}
use subsyncd.Store.Queue.Rows.{SearchRow, owned_by, is_row, lease_free, is_leased}
use subsyncd.Common.Time.{Instant}
use subsyncd.Store.Queue.Shape.{KeepsKey, KeepsTest, all_rows}
use subsyncd.Store.Queue.Changes.{reject_row}
use subsyncd.Store.Queue.Grants.{reset_resume}

-- The row is leased to the job, until the time at least.
unfoldable pub held : String → Instant → SearchRow → Bool
held job until r = owned_by job r && elim r.lease_until [ none ↦ false | some u ↦ leb until u ]

-- The rows of one search are held.
unfoldable pub guards : ℕ → String → String → Instant → SearchRow → Bool
guards id language job until r = not (is_row id language r) || held job until r

owner_once :
    (a b : String) (r : SearchRow) → owned_by a r ≡ true → owned_by b r ≡ true → str_eq a b ≡ true
owner_once a b r h k = elim (Option-cases r.lease_owner) [
  | inl e ↦
      absurd
        (false≢true (sym (ap (λ o. elim o [ none ↦ false | some owner ↦ str_eq owner a ]) e) ∙ h))
  | inr (owner, e) ↦
      let ha : str_eq owner a ≡ true =
        sym (ap (λ o. elim o [ none ↦ false | some w ↦ str_eq w a ]) e) ∙ h in
      let hb : str_eq owner b ≡ true =
        sym (ap (λ o. elim o [ none ↦ false | some w ↦ str_eq w b ]) e) ∙ k in
      (eq_iff a b).1 (sym ((eq_iff owner a).0 ha) ∙ (eq_iff owner b).0 hb)
]

-- A held row is not free before that time, and no other job owns it.
pub held-lease_free :
    (job : String) (until now : Instant) (r : SearchRow)
    → held job until r ≡ true
    → now < until
    → lease_free now r ≡ false
unfolding held
held-lease_free job until now r h l = ground arith

pub held-owned_by :
    (job other : String) (until : Instant) (r : SearchRow)
    → held job until r ≡ true
    → str_eq job other ≡ false
    → owned_by other r ≡ false
unfolding held
held-owned_by job other until r h d = elim (Bool-cases (owned_by other r)) [
  | inr n ↦ n
  | inl y ↦ absurd (true≢false (sym (owner_once job other r (and_left (owned_by job r) _ h) y) ∙ d))
]

-- An update that leaves the columns of the lease, or that is not made on a held row.
pub same-guards :
    (id : ℕ) (language job : String) (until : Instant) (p : SearchRow → Bool)
    (f : SearchRow → SearchRow)
    → KeepsKey f
    → ((r : SearchRow) → ((f r).lease_owner ≡ r.lease_owner) × ((f r).lease_until ≡ r.lease_until))
    → KeepsTest (guards id language job until) p f
unfolding guards held
same-guards id language job until p f key same r h _ =
    rw ((key r).0, (key r).1, (same r).0, (same r).1) h

pub apart-guards :
    (id : ℕ) (language job : String) (until : Instant) (p : SearchRow → Bool)
    (f : SearchRow → SearchRow)
    → KeepsKey f
    → ((r : SearchRow) → held job until r ≡ true → is_row id language r ≡ true → p r ≡ false)
    → KeepsTest (guards id language job until) p f
unfolding guards
apart-guards id language job until p f key apart r h y = elim (Bool-cases (is_row id language r)) [
  | inr n ↦ rw ((key r).0, (key r).1, n) refl
  | inl k ↦
      absurd (true≢false (sym y ∙ apart r (subst (λ b. (not b || held job until r) ≡ true) k h) k))
]

-- A new row of another search.
pub new-guards :
    (id : ℕ) (language job : String) (until : Instant) (new : SearchRow) (rows : List SearchRow)
    → any (is_row id language) rows ≡ true
    → any (is_row new.media_id new.language) rows ≡ false
    → guards id language job until new ≡ true
unfolding guards
new-guards id language job until new rows h n = elim (Bool-cases (is_row id language new)) [
  | inr d ↦ rw d refl
  | inl y ↦
      let i : new.media_id ≡ id =
        (==_iff new.media_id id).0
          (and_left (new.media_id == id) (str_eq new.language language) y) in
      let l : new.language ≡ language =
        (eq_iff new.language language).0
          (and_right (new.media_id == id) (str_eq new.language language) y) in
      absurd (
        true≢false (
          sym h
          ∙ (subst (λ x. any (is_row x language) rows ≡ false) i
              (subst (λ x. any (is_row new.media_id x) rows ≡ false) l n))))
]

-- What is to stay: the search is in the table, and held.
pub record IsHeld (id : ℕ) (language job : String) (until : Instant) (rows : List SearchRow)
    : Type 0 where
  pub present : any (is_row id language) rows ≡ true
  pub guarded : all_rows (guards id language job until) rows ≡ true

-- `RecordUserRejection` leaves a lease in effect.
pub reject_row-guards :
    (id : ℕ) (language job : String) (until now : Instant) (lease : Option (String × Instant))
    → now < until
    → KeepsTest (guards id language job until) (λ _. true) (reject_row now lease)
unfolding guards reject_row held
reject_row-guards id language job until now lease l r h _ =
    elim (Bool-cases (is_row id language r)) [
      | inr n ↦ rw n refl
      | inl k ↦
          let held_now = subst (λ b. (not b || held job until r) ≡ true) k h in
          rw (k, held-lease_free job until now r held_now l) held_now
    ]

pub held-is_leased :
    (job : String) (until : Instant) (r : SearchRow) → held job until r ≡ true → is_leased r ≡ true
unfolding held
held-is_leased job until r h = ground arith

pub reset_resume-lease :
    (r : SearchRow)
    → ((reset_resume r).lease_owner ≡ r.lease_owner)
      × ((reset_resume r).lease_until ≡ r.lease_until)
unfolding reset_resume
reset_resume-lease r = (refl, refl)

pub false_right : (a : Bool) → (a && false) ≡ false
false_right a = ground arith
