-- ===== src/Provider/TtlCache/Store.antt =====
-- What a cache keeps when an answer is stored, and what a lookup gives.
use mathlib.Core.Bool.{true≢false}
use mathlib.Core.Option.{some-injective}
use subsyncd.Common.{
  ℕ, List, ◌≡◌, Bool, false, any, ◌≤◌, arith, any-keep-false, true, not, some, none, suc,
  Bool-cases, ltb, length, inl, ap, sym, ◌∙◌, ◌<◌, ◌&&◌, ◌∷◌, inr, ◌+◌, [], subst, zero,
  Option-cases, tests, Option, refl,
}
use subsyncd.Provider.TtlCache.{
  remove, Cached, evict, has_key, find, scan, store_locked, lookup_locked, TtlCache, get, put,
}
use subsyncd.Common.Time.{before, Instant}
use subsyncd.Provider.TtlCache.Eviction.{IsVisit, oldest_lem, evict-le-limit}
use subsyncd.Common.Text.{String, str_eq, eq_iff}
use subsyncd.Provider.TtlCache.Freshness.{
  unique, evict_more, find-remove-some, find-evict-some, find-any, evict_done, has_key-shared,
  IsCache, any-remove_self, unique-remove, unique-evict, any-evict-false, find-remove_other,
  find-is_at, find_here, find-remove_self,
}

not_before : (a b : ℕ) → before a b ≡ false → b ≤ a
not_before a b h = ground arith

any-remove-false :
    {V : Type 0} (p : Cached V → Bool) (k : String) (es : List (Cached V))
    → any p es ≡ false
    → any p (remove k es) ≡ false
unfolding remove
any-remove-false p k es h = any-keep-false p (λ x. not (has_key k x)) es h

module _ {V : Type 0} (c : TtlCache V) (now : Instant) (k : String) where
  pub lookup_miss : find k c.entries ≡ none → lookup_locked c now k ≡ (c, none)
  unfolding lookup_locked
  lookup_miss h = rw (h, lookup_locked) refl

  pub lookup_hit :
      (e : Cached V)
      → find k c.entries ≡ some e
      → now < e.stored + c.ttl
      → lookup_locked c now k ≡ (c, some e.value)
  unfolding lookup_locked
  lookup_hit e h t =
      let fresh : before now (e.stored + c.ttl) ≡ true = ground arith in
      rw (h, lookup_locked) (rw fresh refl)

  pub lookup_stale :
      (e : Cached V)
      → find k c.entries ≡ some e
      → before now (e.stored + c.ttl) ≡ false
      → lookup_locked c now k ≡ (record c { entries = remove k c.entries }, none)
  unfolding lookup_locked
  lookup_stale e h t = rw (h, lookup_locked) (rw t refl)

others_older :
    {V : Type 0} (k : String) (now : Instant) (es : List (Cached V))
    → any (λ x. not (before x.stored now)) es ≡ false
    → any (λ x. not (has_key k x) && not (before x.stored now)) es ≡ false
others_older k now [] h = refl
others_older k now (x ∷ es) h = ground (arith, others_older k now es)

module _ {V : Type 0} (visit : List (Cached V) → List (Cached V)) (v : IsVisit visit) where
  -- What the loop evicts is no younger than anything that it leaves.
  evict-oldest :
      (n limit : ℕ) (now : Instant) (k k' : String) (es : List (Cached V)) (e e' : Cached V)
      → unique es ≡ true
      → any (has_key "") es ≡ false
      → find k es ≡ some e
      → find k (evict visit n limit now es) ≡ none
      → find k' (evict visit n limit now es) ≡ some e'
      → e.stored ≤ e'.stored
  unfolding evict
  evict-oldest zero limit now k k' es e e' u m f g h = absurd (ground arith)
  evict-oldest (suc n) limit now k k' es e e' u m f g h =
      elim (Bool-cases (ltb limit (length es))) [
        | inl more ↦
            let r = scan "" now (visit es) in
            let turn = evict_more visit v n limit now es more in
            let g' = ap (find k) (sym turn) ∙ g in
            let h' = ap (find k') (sym turn) ∙ h in
            elim (Bool-cases (str_eq r.0 k)) [
              | inl y ↦
                  let (found, first) = oldest_lem visit v now es (ground arith) in
                  let kept =
                    find-remove-some k' r.0 es e'
                      (find-evict-some visit v n limit now k' (remove r.0 es) e' h') in
                  let above = find-any (λ x. before x.stored r.1) k' es e' kept (first m) in
                  let f' =
                    subst (λ (t : String). find t es ≡ some e) (sym ((eq_iff r.0 k).0 y)) f in
                  omega (arith, find-is_at r es e u found f', not_before e'.stored r.1 above)
              | inr o ↦
                  evict-oldest n limit now k k' (remove r.0 es) e e' (unique-remove r.0 es u)
                    (any-remove-false (has_key "") r.0 es m) (find-remove_other k r.0 es o ∙ f) g'
                    h'
            ]
        | inr done ↦
            let same = ap (find k) (sym (evict_done visit v n limit now es done)) ∙ g in
            absurd (ground arith)
      ]

  -- A store keeps the cache sound: distinct, named keys, and never more entries than the limit.
  pub store_locked-IsCache :
      (c : TtlCache V) (now : Instant) (k : String) (value : V)
      → IsCache c
      → str_eq k "" ≡ false
      → IsCache (store_locked visit c now k value)
  unfolding store_locked
  store_locked-IsCache c now k value w n =
      let es = record { key = k; value = value; stored = now } ∷ remove k c.entries in
      record {
        distinct =
            unique-evict visit v (length es) c.limit now es
              (ground (arith, any-remove_self k c.entries, unique-remove k c.entries w.distinct));
        named =
            any-evict-false visit v (has_key "") (length es) c.limit now es
              (ground (arith, any-remove-false (has_key "") k c.entries w.named));
        bounded = evict-le-limit visit v (length es) c.limit now es (omega arith);
      }

  -- To make room, a store evicts the oldest: any other entry that it drops was stored no later than
  -- every entry that is left.
  pub store_locked-oldest :
      (c : TtlCache V) (now : Instant) (k o o' : String) (value : V) (e e' : Cached V)
      → IsCache c
      → str_eq k "" ≡ false
      → str_eq k o ≡ false
      → find o c.entries ≡ some e
      → find o (store_locked visit c now k value).entries ≡ none
      → find o' (store_locked visit c now k value).entries ≡ some e'
      → e.stored ≤ e'.stored
  unfolding store_locked
  store_locked-oldest c now k o o' value e e' w n d f g h =
      let new : Cached V = record { key = k; value = value; stored = now } in
      evict-oldest (suc (length (remove k c.entries))) c.limit now o o' (new ∷ remove k c.entries) e
        e' (ground (arith, any-remove_self k c.entries, unique-remove k c.entries w.distinct))
        (ground (arith, any-remove-false (has_key "") k c.entries w.named))
        (rw d (find-remove_other o k c.entries d ∙ f)) g h

  other_exists :
      (k : String) (es : List (Cached V))
      → unique es ≡ true
      → 1 < length es
      → any (λ x. not (has_key k x)) es ≡ true
  other_exists k [] u h = absurd (omega arith)
  other_exists k (a ∷ []) u h = absurd (omega arith)
  other_exists k (a ∷ b ∷ es) u h = ground (arith, has_key-shared k a b)

  any_both :
      (p q : Cached V → Bool) (es : List (Cached V))
      → any p es ≡ true
      → any (λ x. p x && not (q x)) es ≡ false
      → any q es ≡ true
  any_both p q [] h g = absurd (ground arith)
  any_both p q (x ∷ es) h g = ground (arith, any_both p q es)

  any-before_shared :
      (t t' : Instant) (es : List (Cached V))
      → t ≡ t'
      → any (λ x. before x.stored t) es ≡ any (λ x. before x.stored t') es
  any-before_shared t t' es h = ap (λ i. any (λ x. before x.stored i) es) h

  -- The scan of more than one entry does not end with the youngest.
  newest-not-oldest :
      (now : Instant) (k : String) (es : List (Cached V)) (e : Cached V)
      → unique es ≡ true
      → any (has_key "") es ≡ false
      → find k es ≡ some e
      → any (λ x. not (has_key k x) && not (before x.stored e.stored)) es ≡ false
      → 1 < length es
      → str_eq (scan "" now (visit es)).0 k ≡ false
  newest-not-oldest now k es e u m f a h =
      let r = scan "" now (visit es) in
      elim (Bool-cases (str_eq r.0 k)) [
        | inr o ↦ o
        | inl y ↦
            let (found, first) = oldest_lem visit v now es (omega arith) in
            let f' = subst (λ (t : String). find t es ≡ some e) (sym ((eq_iff r.0 k).0 y)) f in
            let older =
              any_both (λ x. not (has_key k x)) (λ x. before x.stored e.stored) es
                (other_exists k es u h) a in
            absurd (
              true≢false (
                sym older
                ∙ any-before_shared e.stored r.1 es (find-is_at r es e u found f')
                ∙ first m))
      ]

  -- An entry that is younger than all the others outlives the loop.
  evict-newest :
      (n limit : ℕ) (now : Instant) (k : String) (es : List (Cached V)) (e : Cached V)
      → unique es ≡ true
      → any (has_key "") es ≡ false
      → find k es ≡ some e
      → any (λ x. not (has_key k x) && not (before x.stored e.stored)) es ≡ false
      → 0 < limit
      → find k (evict visit n limit now es) ≡ some e
  unfolding evict
  evict-newest zero limit now k es e u m f a l = f
  evict-newest (suc n) limit now k es e u m f a l = elim (Bool-cases (ltb limit (length es))) [
    | inr done ↦ ap (find k) (evict_done visit v n limit now es done) ∙ f
    | inl more ↦
        let r = scan "" now (visit es) in
        ap (find k) (evict_more visit v n limit now es more)
        ∙ evict-newest n limit now k (remove r.0 es) e (unique-remove r.0 es u)
            (any-remove-false (has_key "") r.0 es m)
            (find-remove_other k r.0 es (newest-not-oldest now k es e u m f a (omega (tests, more)))
              ∙ f)
            (any-remove-false (λ x. not (has_key k x) && not (before x.stored e.stored)) r.0 es a) l
  ]

  -- An answer that was just stored is found until its time to live has passed, where the limit
  -- leaves room for it and every other entry is older.
  pub put-get :
      (c : TtlCache V) (now later : Instant) (k : String) (value : V)
      → IsCache c
      → str_eq k "" ≡ false
      → 0 < c.limit
      → any (λ x. not (before x.stored now)) c.entries ≡ false
      → later < now + c.ttl
      → (get visit (put visit c now k value) later k).1 ≡ some value
  unfolding store_locked lookup_locked
  put-get c now later k value w n l a t =
      let new : Cached V = record { key = k; value = value; stored = now } in
      let es = new ∷ remove k c.entries in
      let same : has_key k new ≡ true = (eq_iff k k).1 refl in
      let kept : find k (evict visit (length es) c.limit now es) ≡ some new =
        evict-newest (length es) c.limit now k es new
          (ground (arith, any-remove_self k c.entries, unique-remove k c.entries w.distinct))
          (ground (arith, any-remove-false (has_key "") k c.entries w.named))
          (sym (find_here k new (remove k c.entries) same))
          (rw same (
            others_older k now (remove k c.entries)
              (any-remove-false (λ x. not (before x.stored now)) k c.entries a)))
          l in
      ap (λ (r : TtlCache V × Option V). r.1)
        (lookup_hit (store_locked visit c now k value) later k new kept t)

-- A lookup gives an answer only where it is stored under that key and has not expired, and then
-- changes nothing.
pub lookup_locked-fresh :
    {V : Type 0} (c : TtlCache V) (now : Instant) (k : String) (value : V)
    → (lookup_locked c now k).1 ≡ some value
    → (e : Cached V) × (find k c.entries ≡ some e)
      × (e.value ≡ value)
      × (now < e.stored + c.ttl)
      × ((lookup_locked c now k).0 ≡ c)
lookup_locked-fresh c now k value h = elim (Option-cases (find k c.entries)) [
  | inl miss ↦ absurd (nothing (ap (λ r. r.1) (lookup_miss c now k miss)))
  | inr (e, hit) ↦ elim (Bool-cases (before now (e.stored + c.ttl))) [
    | inl fresh ↦
        let t : now < e.stored + c.ttl = omega (tests, fresh) in
        let found = lookup_hit c now k e hit t in
        (e, hit, some-injective _ _ (sym (ap (λ r. r.1) found) ∙ h), t, ap (λ r. r.0) found)
    | inr stale ↦ absurd (nothing (ap (λ r. r.1) (lookup_stale c now k e hit stale)))
  ]
]
  where
    nothing : (lookup_locked c now k).1 ≡ none → ⊥
    nothing n = absurd (ground arith)

-- Where a lookup gives no answer, its key has no entry afterwards, and the other keys keep theirs.
pub lookup_locked-drops :
    {V : Type 0} (c : TtlCache V) (now : Instant) (k o : String)
    → (lookup_locked c now k).1 ≡ none
    → str_eq k o ≡ false
    → (find k (lookup_locked c now k).0.entries ≡ none)
      × (find o (lookup_locked c now k).0.entries ≡ find o c.entries)
lookup_locked-drops {V} c now k o h d =
    let Left = λ (r : TtlCache V × Option V).
      (find k r.0.entries ≡ none) × (find o r.0.entries ≡ find o c.entries) in
    elim (Option-cases (find k c.entries)) [
      | inl miss ↦ subst Left (sym (lookup_miss c now k miss)) (miss, refl)
      | inr (e, hit) ↦ elim (Bool-cases (before now (e.stored + c.ttl))) [
        | inl fresh ↦
            let found = ap (λ r. r.1) (lookup_hit c now k e hit (omega (tests, fresh))) in
            absurd (ground (arith, found, h))
        | inr stale ↦
            subst Left (sym (lookup_stale c now k e hit stale))
              (find-remove_self k c.entries, find-remove_other o k c.entries d)
      ]
    ]
