-- ===== src/Provider/TtlCache/Places.antt =====
-- Where the calls of `Load` stand with the channels: what a fetch that begins or ends does to it.
use mathlib.Core.Bool.{true≢false}
use subsyncd.Common.{
  Option, ℕ, if◌then◌else◌, Bool, ◌≡◌, false, ◌==◌, true, none, some, arith, Bool-cases, inl, ◌||◌,
  inr, subst, sym, refl, ◌∙◌, ap,
}
use subsyncd.Common.Text.{String, str_eq, eq_iff}
use subsyncd.Provider.TtlCache.{Phase, fetching, waiting, entering, returned}
use subsyncd.Provider.TtlCache.Calls.{fetches}

-- The channel of a flight.
abbrev pub flies : Option ℕ → ℕ → Bool
flies none d = false
flies (some d') d = d' == d

-- A call fetches on the channel that is in flight; it waits for that one or for a closed one.
abbrev pub placed_in : {V : Type 0} → (String → Option ℕ) → (ℕ → Bool) → Phase V → Bool
placed_in flight closed (fetching k d) = flies (flight k) d
placed_in flight closed (waiting k d) = closed d || flies (flight k) d
placed_in flight closed _ = true

pub flies-same : (o : Option ℕ) (d d' : ℕ) → flies o d ≡ true → flies o d' ≡ true → d ≡ d'
flies-same none d d' h g = absurd (ground arith)
flies-same (some e) d d' h g = ground arith

module _ (m : String → Option ℕ) (k : String) where
  flies-begin :
      (d d' : ℕ) (k' : String)
      → m k ≡ none
      → flies (m k') d' ≡ true
      → flies (if str_eq k' k then some d else m k') d' ≡ true
  flies-begin d d' k' free h = elim (Bool-cases (str_eq k' k)) [
    | inl y ↦
        let free' : m k' ≡ none =
          subst (λ (t : String). m t ≡ none) (sym ((eq_iff k' k).0 y)) free in
        absurd (true≢false (sym h ∙ ap (λ o. flies o d') free'))
    | inr n ↦ rw n h
  ]

  pub placed-begin :
      {V : Type 0} (d : ℕ) (closed : ℕ → Bool) (q : Phase V)
      → m k ≡ none
      → placed_in m closed q ≡ true
      → placed_in (λ k'. if str_eq k' k then some d else m k') closed q ≡ true
  placed-begin d closed (entering k') free h = refl
  placed-begin d closed (fetching k' d') free h = flies-begin d d' k' free h
  placed-begin d closed (waiting k' d') free h = elim (Bool-cases (closed d')) [
    | inl y ↦ rw y refl
    | inr n ↦ rw n (flies-begin d d' k' free (ground arith))
  ]
  placed-begin d closed (returned r) free h = refl

  -- After the end of the fetch of `k` on the channel `d`.
  abbrev pub ended : String → Option ℕ
  ended k' = if str_eq k' k then none else m k'

  abbrev pub shut : (ℕ → Bool) → ℕ → ℕ → Bool
  shut closed d d' = if d' == d then true else closed d'

  pub placed-end :
      {V : Type 0} (d : ℕ) (closed : ℕ → Bool) (q : Phase V)
      → flies (m k) d ≡ true
      → placed_in m closed q ≡ true
      → fetches k q ≡ 0
      → placed_in ended (shut closed d) q ≡ true
  placed-end d closed (entering k') p h f = refl
  placed-end d closed (fetching k' d') p h f = elim (Bool-cases (str_eq k' k)) [
    | inl y ↦
        let one : str_eq k k' ≡ true = (eq_iff k k').1 (sym ((eq_iff k' k).0 y)) in
        absurd (ground arith)
    | inr n ↦ rw n h
  ]
  placed-end d closed (waiting k' d') p h f = elim (Bool-cases (str_eq k' k)) [
    | inl y ↦
        let here : (closed d' || flies (m k) d') ≡ true =
          subst (λ (t : String). (closed d' || flies (m t) d') ≡ true) ((eq_iff k' k).0 y) h in
        rw y (ground (arith, flies-same (m k) d d' p))
    | inr n ↦ rw n (ground (arith, h))
  ]
  placed-end d closed (returned r) p h f = refl
