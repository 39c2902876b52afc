-- ===== src/Provider/TtlCache/Eviction.antt =====
-- The loop that evicts: what it removes, and how much stays.
use mathlib.Core.Bool.{true≢false}
use subsyncd.Common.{
  List, ◌∷◌, inl, ◌≡◌, any, ◌<◌, ◌≤◌, Bool, ◌⊎◌, ◌≢◌, Bool-cases, length, ℕ, true, ◌||◌, false,
  arith, ◌&&◌, suc, subst, [], refl, length-keep-le, ap, not, ltb, sym, ◌==◌, ◌∙◌, inr, any_mono,
  tests, zero,
}
use subsyncd.Provider.TtlCache.{scan, remove, Cached, evict, has_key}
use subsyncd.Common.Time.{Instant, before}
use subsyncd.Common.Text.{String, str_eq, eq_iff}

module _ {V : Type 0} where
  -- The entry that a scan ends with.
  abbrev pub is_at : String × Instant → Cached V → Bool
  is_at r e = has_key r.0 e && e.stored == r.1

  found-cons :
      (r : String × Instant) (e : Cached V) (es : List (Cached V))
      → ((r.0 ≡ e.key) × (r.1 ≡ e.stored)) ⊎ (any (is_at r) es ≡ true)
      → any (is_at r) (e ∷ es) ≡ true
  found-cons r e es (inl (p, q)) =
      let k : str_eq e.key r.0 ≡ true = (eq_iff e.key r.0).1 (sym p) in
      let t : (e.stored == r.1) ≡ true = ground arith in rw k (rw t refl)
  found-cons r e es (inr q) = ground arith

  -- One turn of the scan, with and without a change.
  scan_changed :
      (k : String) (t : Instant) (e : Cached V) (es : List (Cached V))
      → (str_eq k "" || before e.stored t) ≡ true
      → scan k t (e ∷ es) ≡ scan e.key e.stored es
  unfolding scan
  scan_changed k t e es h = rw h refl

  scan_kept :
      (k : String) (t : Instant) (e : Cached V) (es : List (Cached V))
      → (str_eq k "" || before e.stored t) ≡ false
      → scan k t (e ∷ es) ≡ scan k t es
  unfolding scan
  scan_kept k t e es h = rw h refl

  abbrev FoundOr : String → Instant → List (Cached V) → (String × Instant) → Type 0
  FoundOr k t es r = ((r.0 ≡ k) × (r.1 ≡ t)) ⊎ (any (is_at r) es ≡ true)

  -- The scan ends with an entry, unless it ends with what it started with.
  scan-found : (k : String) (t : Instant) (es : List (Cached V)) → FoundOr k t es (scan k t es)
  unfolding scan
  scan-found k t [] = inl (refl, refl)
  scan-found k t (e ∷ es) = elim (Bool-cases (str_eq k "" || before e.stored t)) [
    | inl y ↦
        subst (FoundOr k t (e ∷ es)) (sym (scan_changed k t e es y))
          (inr (found-cons _ e es (scan-found e.key e.stored es)))
    | inr n ↦
        subst (FoundOr k t (e ∷ es)) (sym (scan_kept k t e es n))
          (elim (scan-found k t es) [ inl p ↦ inl p | inr q ↦ inr (found-cons _ e es (inr q)) ])
  ]

  scan-any :
      (t : Instant) (e : Cached V) (es : List (Cached V))
      → any (is_at (scan "" t (e ∷ es))) (e ∷ es) ≡ true
  unfolding scan
  scan-any t e es = found-cons _ e es (scan-found e.key e.stored es)

  abbrev IsFirst : Instant → List (Cached V) → (String × Instant) → Type 0
  IsFirst t es r = (r.1 ≤ t) × (any (λ x. before x.stored r.1) es ≡ false)

  IsFirst-cons :
      (s t : Instant) (e : Cached V) (es : List (Cached V)) (r : String × Instant)
      → IsFirst s es r
      → s ≤ t
      → s ≤ e.stored
      → IsFirst t (e ∷ es) r
  IsFirst-cons s t e es r h k l = ground arith

  -- No entry is older than the one that the scan ends with, where no key is empty.
  scan-IsFirst :
      (k : String) (t : Instant) (es : List (Cached V))
      → str_eq k "" ≡ false
      → any (has_key "") es ≡ false
      → IsFirst t es (scan k t es)
  unfolding scan
  scan-IsFirst k t [] n h = (omega arith, refl)
  scan-IsFirst k t (e ∷ es) n h = elim (Bool-cases (before e.stored t)) [
    | inl y ↦ subst (IsFirst t (e ∷ es)) (sym (scan_changed k t e es (ground arith))) (
        IsFirst-cons e.stored t e es (scan e.key e.stored es)
          (scan-IsFirst e.key e.stored es (ground arith) (ground arith)) (omega (tests, y))
          (omega arith))
    | inr m ↦ subst (IsFirst t (e ∷ es)) (sym (scan_kept k t e es (ground arith))) (
        IsFirst-cons t t e es (scan k t es) (scan-IsFirst k t es n (ground arith)) (omega arith)
          (ground arith))
  ]

  scan-first :
      (t : Instant) (e : Cached V) (es : List (Cached V))
      → any (has_key "") (e ∷ es) ≡ false
      → any (λ x. before x.stored (scan "" t (e ∷ es)).1) (e ∷ es) ≡ false
  unfolding scan
  scan-first t e es h =
      (IsFirst-cons e.stored e.stored e es (scan e.key e.stored es)
        (scan-IsFirst e.key e.stored es (ground arith) (ground arith)) (omega arith)
        (omega arith)).1

  pub length-remove :
      (k : String) (es : List (Cached V))
      → any (has_key k) es ≡ true
      → length (remove k es) < length es
  unfolding remove
  length-remove k [] h = absurd (ground arith)
  length-remove k (e ∷ es) h =
      ground (arith, length-remove k es, length-keep-le (λ x. not (has_key k x)) es)

  -- A `range` comes by every entry, and by nothing else: each test finds the same.
  pub record IsVisit (visit : List (Cached V) → List (Cached V)) : Type 0 where
    pub any-visit : (p : Cached V → Bool) (es : List (Cached V)) → any p (visit es) ≡ any p es

  module _ (visit : List (Cached V) → List (Cached V)) (v : IsVisit visit) where
    visit_nonempty : (e : Cached V) (es : List (Cached V)) → visit (e ∷ es) ≢ []
    visit_nonempty e es p =
        true≢false (sym (v.any-visit (λ _. true) (e ∷ es)) ∙ ap (any (λ _. true)) p)

    -- What the scan of the map ends with: one of its entries, and the first of all.
    pub oldest_lem :
        (now : Instant) (es : List (Cached V))
        → 0 < length es
        → let r = scan "" now (visit es) in
          (any (is_at r) es ≡ true)
          × (any (has_key "") es ≡ false → any (λ x. before x.stored r.1) es ≡ false)
    oldest_lem now [] h = absurd (omega arith)
    oldest_lem now (e ∷ es) h = go (visit (e ∷ es)) refl
      where
        go :
            (order : List (Cached V))
            → visit (e ∷ es) ≡ order
            → let r = scan "" now order in
              (any (is_at r) (e ∷ es) ≡ true)
              × (any (has_key "") (e ∷ es) ≡ false
                  → any (λ x. before x.stored r.1) (e ∷ es) ≡ false)
        go [] p = absurd (visit_nonempty e es p)
        go (x ∷ xs) p =
            let all = λ (q : Cached V → Bool). ap (any q) (sym p) ∙ v.any-visit q (e ∷ es) in
            (
              sym (all (is_at (scan "" now (x ∷ xs)))) ∙ scan-any now x xs,
              λ n.
                  sym (all (λ y. before y.stored (scan "" now (x ∷ xs)).1))
                  ∙ scan-first now x xs (all (has_key "") ∙ n),
            )

    -- With fuel for every entry, the loop stops only when the limit holds.
    pub evict-le-limit :
        (n limit : ℕ) (now : Instant) (es : List (Cached V))
        → length es ≤ n
        → length (evict visit n limit now es) ≤ limit
    unfolding evict
    evict-le-limit zero limit now es h = omega arith
    evict-le-limit (suc n) limit now es h = elim (Bool-cases (ltb limit (length es))) [
      | inl more ↦
          let r = scan "" now (visit es) in
          let (found, first) = oldest_lem now es (ground arith) in
          let shorter =
            length-remove r.0 es
              (any_mono (is_at r) (has_key r.0) es (λ x y. ground arith) found) in
          rw more (evict-le-limit n limit now (remove r.0 es) (omega arith))
      | inr done ↦ ground arith
    ]
