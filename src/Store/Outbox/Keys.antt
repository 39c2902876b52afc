-- ===== src/Store/Outbox/Keys.antt =====
-- Updates, inserts and deletions of rows that keep the outbox well formed.
use mathlib.Core.Bool.{true≢false}
use subsyncd.Common.{
  Bool, List, ◌≡◌, if◌then◌else◌, not, ◌⊎◌, Option, any, true, false, arith, none, some, refl, ◌∷◌,
  Bool-cases, inl, inr, [], ◌++◌, keep, ◌||◌, any-keep-false, sym, ◌∙◌, negated, and_true,
  and_right, and_left,
}
use subsyncd.Store.Outbox.Rows.{unique_keys, sound, all_intents, IsOutbox, key_free}
use subsyncd.Common.Text.{String, str_eq, eq_iff}
use subsyncd.Store.Outbox.{Intent, has_key, change_where}

pub neither : (a b : Bool) → (if a then true else b) ≡ false → (a ≡ false) × (b ≡ false)
neither true b h = absurd (true≢false h)
neither false b h = (refl, h)

-- An update keeps the key of a row, or drops it.
abbrev pub KeepsKey : (Intent → Intent) → Type 0
KeepsKey f = (r : Intent) → ((f r).dedupe_key ≡ r.dedupe_key) ⊎ ((f r).dedupe_key ≡ none)

abbrev pub KeepsSound : (Intent → Intent) → Type 0
KeepsSound f = (r : Intent) → sound r ≡ true → sound (f r) ≡ true

sound-change_where :
    (p : Intent → Bool) (f : Intent → Intent)
    → KeepsSound f
    → (rows : List Intent) → all_intents sound rows ≡ true
    → all_intents sound (change_where p f rows) ≡ true
sound-change_where p f keeps [] h = refl
sound-change_where p f keeps (r ∷ rows) h =
    let here = and_left (sound r) (all_intents sound rows) h in
    let rest = sound-change_where p f keeps rows (and_right (sound r) (all_intents sound rows) h) in
    elim (Bool-cases (p r)) [
      | inl y ↦
          rw y
            (and_true (sound (f r)) (all_intents sound (change_where p f rows)) (keeps r here) rest)
      | inr n ↦ rw n (and_true (sound r) (all_intents sound (change_where p f rows)) here rest)
    ]

-- A key that no row has, no row gets.
pub key-change_where :
    (k : String) (p : Intent → Bool) (f : Intent → Intent)
    → KeepsKey f
    → (rows : List Intent) → any (has_key k) rows ≡ false
    → any (has_key k) (change_where p f rows) ≡ false
key-change_where k p f keeps [] h = refl
key-change_where k p f keeps (r ∷ rows) h =
    let (here, later) = neither (has_key k r) (any (has_key k) rows) h in
    elim (Bool-cases (p r)) [
      | inr n ↦ rw (n, here, key-change_where k p f keeps rows later) refl
      | inl y ↦ elim (keeps r) [
        | inl same ↦ rw (y, same, here, key-change_where k p f keeps rows later) refl
        | inr gone ↦ rw (y, gone, key-change_where k p f keeps rows later) refl
      ]
    ]

free-change_where :
    (p : Intent → Bool) (f : Intent → Intent)
    → KeepsKey f
    → (rows : List Intent) (o : Option String)
    → (elim o [ none ↦ true | some k ↦ not (any (has_key k) rows) ]) ≡ true
    → (elim o [ none ↦ true | some k ↦ not (any (has_key k) (change_where p f rows)) ]) ≡ true
free-change_where p f keeps rows none h = refl
free-change_where p f keeps rows (some k) h =
    rw (key-change_where k p f keeps rows (negated (any (has_key k) rows) h)) refl

unique-change_where :
    (p : Intent → Bool) (f : Intent → Intent)
    → KeepsKey f
    → (rows : List Intent) → unique_keys rows ≡ true
    → unique_keys (change_where p f rows) ≡ true
unfolding unique_keys
unique-change_where p f keeps [] h = refl
unique-change_where p f keeps (r ∷ rows) h =
    let here =
      free-change_where p f keeps rows r.dedupe_key
        (and_left (key_free rows r) (unique_keys rows) h) in
    let rest =
      unique-change_where p f keeps rows (and_right (key_free rows r) (unique_keys rows) h) in
    elim (Bool-cases (p r)) [
      | inr n ↦ rw n (
          and_true (key_free (change_where p f rows) r) (unique_keys (change_where p f rows)) here
            rest)
      | inl y ↦ elim (keeps r) [
        | inl same ↦
            rw (y, same)
              (and_true (key_free (change_where p f rows) r) (unique_keys (change_where p f rows))
                here rest)
        | inr gone ↦ rw (y, gone) rest
      ]
    ]

pub change_where-IsOutbox :
    (p : Intent → Bool) (f : Intent → Intent)
    → KeepsKey f
    → KeepsSound f
    → (rows : List Intent) → IsOutbox rows
    → IsOutbox (change_where p f rows)
change_where-IsOutbox p f key keeps rows (h, u) =
    (sound-change_where p f keeps rows h, unique-change_where p f key rows u)

key-append :
    (k : String) (rows : List Intent) (r : Intent)
    → any (has_key k) (rows ++ r ∷ []) ≡ (any (has_key k) rows || has_key k r)
key-append k [] r = ground arith
key-append k (s ∷ rows) r = ground (arith, key-append k rows r)

free-append :
    (rows : List Intent) (r : Intent) (o : Option String)
    → ((k : String) → o ≡ some k → has_key k r ≡ false)
    → (elim o [ none ↦ true | some k ↦ not (any (has_key k) rows) ]) ≡ true
    → (elim o [ none ↦ true | some k ↦ not (any (has_key k) (rows ++ r ∷ [])) ]) ≡ true
free-append rows r none f h = refl
free-append rows r (some k) f h =
    rw (key-append k rows r, f k refl, negated (any (has_key k) rows) h) refl

other_key :
    (k k' : String) (s : Intent)
    → s.dedupe_key ≡ some k'
    → has_key k s ≡ false
    → str_eq k k' ≡ false
other_key k k' s e h = elim (Bool-cases (str_eq k k')) [
  | inr n ↦ n
  | inl y ↦
      let same : str_eq k' k ≡ true = (eq_iff k' k).1 (sym ((eq_iff k k').0 y)) in
      absurd (true≢false (sym same ∙ (sym (rw e refl) ∙ h)))
]

-- A key that no row has may be added.
pub unique-append :
    (rows : List Intent) (r : Intent) (k : String)
    → r.dedupe_key ≡ some k
    → any (has_key k) rows ≡ false
    → unique_keys rows ≡ true
    → unique_keys (rows ++ r ∷ []) ≡ true
unfolding unique_keys
unique-append [] r k e n u = rw e refl
unique-append (s ∷ rows) r k e n u =
    let (here, later) = neither (has_key k s) (any (has_key k) rows) n in
    and_true (key_free (rows ++ r ∷ []) s) (unique_keys (rows ++ r ∷ []))
      (free-append rows r s.dedupe_key (λ k' e'. rw e (other_key k k' s e' here))
        (and_left (key_free rows s) (unique_keys rows) u))
      (unique-append rows r k e later (and_right (key_free rows s) (unique_keys rows) u))

pub sound-append :
    (rows : List Intent) (r : Intent)
    → all_intents sound rows ≡ true
    → sound r ≡ true
    → all_intents sound (rows ++ r ∷ []) ≡ true
sound-append [] r h s = ground arith
sound-append (x ∷ rows) r h s = ground (arith, sound-append rows r)

key-keep :
    (k : String) (p : Intent → Bool) (rows : List Intent)
    → any (has_key k) rows ≡ false
    → any (has_key k) (keep p rows) ≡ false
key-keep k p rows h = any-keep-false (has_key k) p rows h

free-keep :
    (p : Intent → Bool) (rows : List Intent) (o : Option String)
    → (elim o [ none ↦ true | some k ↦ not (any (has_key k) rows) ]) ≡ true
    → (elim o [ none ↦ true | some k ↦ not (any (has_key k) (keep p rows)) ]) ≡ true
free-keep p rows none h = refl
free-keep p rows (some k) h = rw (key-keep k p rows (negated (any (has_key k) rows) h)) refl

pub keep-IsOutbox :
    (p : Intent → Bool) (rows : List Intent) → IsOutbox rows → IsOutbox (keep p rows)
unfolding unique_keys
keep-IsOutbox p [] t = t
keep-IsOutbox p (r ∷ rows) (h, u) =
    let (h', u') = keep-IsOutbox p rows (
      and_right (sound r) (all_intents sound rows) h,
      and_right (key_free rows r) (unique_keys rows) u,
    ) in
    elim (Bool-cases (p r)) [
      | inr n ↦ rw n (h', u')
      | inl y ↦ rw y (
        and_true (sound r) (all_intents sound (keep p rows))
            (and_left (sound r) (all_intents sound rows) h) h',
        and_true (key_free (keep p rows) r) (unique_keys (keep p rows))
            (free-keep p rows r.dedupe_key (and_left (key_free rows r) (unique_keys rows) u)) u',
      )
    ]
