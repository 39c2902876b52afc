-- ===== src/Store/Outbox/Ids.antt =====
-- The ids of the outbox, which are its primary key (internal/store/migrations/001_baseline.sql).
use subsyncd.Common.{
  ℕ, List, Bool, any, ◌==◌, true, ◌++◌, ◌≡◌, ◌∷◌, arith, false, keep, Bool-cases, not, [],
  any-keep-false, ◌||◌, inl, ◌&&◌, refl, inr,
}
use subsyncd.Store.Outbox.{Intent, change_where}

abbrev pub has_id : ℕ → Intent → Bool
has_id id r = r.id == id

unfoldable pub unique_ids : List Intent → Bool
unique_ids [] = true
unique_ids (r ∷ rows) = let rest = unique_ids rows in not (any (has_id r.id) rows) && rest

pub any-id-change_where :
    (id : ℕ) (p : Intent → Bool) (f : Intent → Intent)
    → ((r : Intent) → (f r).id ≡ r.id)
    → (rows : List Intent) → any (has_id id) (change_where p f rows) ≡ any (has_id id) rows
any-id-change_where id p f same [] = refl
any-id-change_where id p f same (r ∷ rows) = elim (Bool-cases (p r)) [
  | inl y ↦ rw (y, same r, any-id-change_where id p f same rows) refl
  | inr n ↦ rw (n, any-id-change_where id p f same rows) refl
]

pub unique_ids-change_where :
    (p : Intent → Bool) (f : Intent → Intent)
    → ((r : Intent) → (f r).id ≡ r.id)
    → (rows : List Intent) → unique_ids (change_where p f rows) ≡ unique_ids rows
unfolding unique_ids
unique_ids-change_where p f same [] = refl
unique_ids-change_where p f same (r ∷ rows) = elim (Bool-cases (p r)) [
  | inl y ↦
      rw (y, same r, any-id-change_where r.id p f same rows, unique_ids-change_where p f same rows)
        refl
  | inr n ↦
      rw (n, any-id-change_where r.id p f same rows, unique_ids-change_where p f same rows) refl
]

id_sym : (m n : ℕ) → (m == n) ≡ (n == m)
id_sym m n = ground arith

any-id-append :
    (id : ℕ) (rows : List Intent) (r : Intent)
    → any (has_id id) (rows ++ r ∷ []) ≡ (any (has_id id) rows || has_id id r)
any-id-append id [] r = ground arith
any-id-append id (s ∷ rows) r = ground (arith, any-id-append id rows r)

pub unique_ids-append :
    (rows : List Intent) (r : Intent)
    → any (has_id r.id) rows ≡ false
    → unique_ids rows ≡ true
    → unique_ids (rows ++ r ∷ []) ≡ true
unfolding unique_ids
unique_ids-append [] r n u = refl
unique_ids-append (s ∷ rows) r n u =
    let fact = any-id-append s.id rows r in
    let swap = id_sym s.id r.id in let rest = unique_ids-append rows r in ground arith

pub unique_ids-keep :
    (p : Intent → Bool) (rows : List Intent)
    → unique_ids rows ≡ true
    → unique_ids (keep p rows) ≡ true
unfolding unique_ids
unique_ids-keep p [] u = refl
unique_ids-keep p (r ∷ rows) u =
    ground (arith, unique_ids-keep p rows, any-keep-false (has_id r.id) p rows)
