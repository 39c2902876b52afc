-- ===== src/Store/Queue/Inserts.antt =====
-- How an insert that updates on a conflict keeps a well-formed table of searches.
use subsyncd.Common.{
  List, ℕ, ◌≡◌, Bool, ◌==◌, arith, any, true, refl, Bool-cases, ◌++◌, inl, false, ◌∷◌, [], ◌||◌,
  ◌&&◌, inr, ◌∙◌, sym, and_right,
}
use subsyncd.Common.Text.{String, str_eq, eq_iff}
use subsyncd.Store.Queue.Rows.{SearchRow, is_row, upsert}
use subsyncd.Store.Queue.Shape.{
  unique, all_rows, shaped, KeepsKey, KeepsShape, IsTable, any-update_where, KeepsTest,
  update_where-unique, all_rows-update_where,
}

pub str_eq_sym : (s t : String) → str_eq s t ≡ str_eq t s
str_eq_sym s t = elim (Bool-cases (str_eq s t)) [
  | inl a ↦ a ∙ sym ((eq_iff t s).1 (sym ((eq_iff s t).0 a)))
  | inr n ↦ elim (Bool-cases (str_eq t s)) [
    | inl b ↦ (eq_iff s t).1 (sym ((eq_iff t s).0 b)) ∙ sym b
    | inr m ↦ n ∙ sym m
  ]
]

eq_sym : (m n : ℕ) → (m == n) ≡ (n == m)
eq_sym m n = ground arith

pub is_row_sym : (r s : SearchRow) → is_row r.media_id r.language s ≡ is_row s.media_id s.language r
is_row_sym r s = rw (eq_sym s.media_id r.media_id, str_eq_sym s.language r.language) refl

any-append :
    (p : SearchRow → Bool) (rows : List SearchRow) (r : SearchRow)
    → any p (rows ++ r ∷ []) ≡ (any p rows || p r)
any-append p [] r = ground arith
any-append p (s ∷ rows) r = ground (arith, any-append p rows r)

all_rows-append :
    (g : SearchRow → Bool) (rows : List SearchRow) (r : SearchRow)
    → all_rows g rows ≡ true
    → g r ≡ true
    → all_rows g (rows ++ r ∷ []) ≡ true
all_rows-append g [] r h s = ground arith
all_rows-append g (x ∷ rows) r h s = ground (arith, all_rows-append g rows r)

append-unique :
    (rows : List SearchRow) (r : SearchRow)
    → unique rows ≡ true
    → any (is_row r.media_id r.language) rows ≡ false
    → unique (rows ++ r ∷ []) ≡ true
unfolding unique
append-unique [] r u h = refl
append-unique (x ∷ rows) r u h =
    let fact = any-append (is_row x.media_id x.language) rows r in
    let swap = is_row_sym x r in let rest = append-unique rows r in ground arith

-- An insert keeps a test of all rows that holds of the new row, where it is inserted, and that the
-- update keeps.
pub all_rows-upsert :
    (g : SearchRow → Bool) (new : SearchRow) (q : SearchRow → Bool) (f : SearchRow → SearchRow)
    → (rows : List SearchRow) → (any (is_row new.media_id new.language) rows ≡ false → g new ≡ true)
    → KeepsTest g q f
    → all_rows g rows ≡ true
    → all_rows g (upsert new q f rows) ≡ true
all_rows-upsert g new q f rows fresh keeps h =
    elim (Bool-cases (any (is_row new.media_id new.language) rows)) [
      | inl y ↦ rw y (
          all_rows-update_where g (λ (r : SearchRow). is_row new.media_id new.language r && q r) f
            (λ r hr pr. keeps r hr (and_right (is_row new.media_id new.language r) (q r) pr)) rows
            h)
      | inr n ↦ rw n (all_rows-append g rows new h (fresh n))
    ]

unique-upsert :
    (new : SearchRow) (q : SearchRow → Bool) (f : SearchRow → SearchRow)
    → KeepsKey f
    → (rows : List SearchRow) → unique rows ≡ true
    → unique (upsert new q f rows) ≡ true
unique-upsert new q f key rows u = elim (Bool-cases (any (is_row new.media_id new.language) rows)) [
  | inl y ↦ rw y (sym (update_where-unique _ f key rows) ∙ u)
  | inr n ↦ rw n (append-unique rows new u n)
]

-- An insert of a well-formed row that updates as above keeps a well-formed table.
pub upsert-IsTable :
    (new : SearchRow) (q : SearchRow → Bool) (f : SearchRow → SearchRow)
    → shaped new ≡ true
    → KeepsKey f
    → KeepsShape q f
    → (rows : List SearchRow) → IsTable rows
    → IsTable (upsert new q f rows)
upsert-IsTable new q f s key shape rows (h, u) =
    (all_rows-upsert shaped new q f rows (λ _. s) shape h, unique-upsert new q f key rows u)

-- A key stays in the table.
pub any-upsert :
    (new : SearchRow) (q : SearchRow → Bool) (f : SearchRow → SearchRow)
    → KeepsKey f
    → (id : ℕ) (language : String) (rows : List SearchRow) → any (is_row id language) rows ≡ true
    → any (is_row id language) (upsert new q f rows) ≡ true
any-upsert new q f key id language rows h =
    elim (Bool-cases (any (is_row new.media_id new.language) rows)) [
      | inl y ↦
          rw
            (
              y,
              any-update_where (λ r. is_row new.media_id new.language r && q r) f key id language
                  rows,
            )
            h
      | inr n ↦ rw (n, any-append (is_row id language) rows new, h) refl
    ]
