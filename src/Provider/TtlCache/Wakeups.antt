-- ===== src/Provider/TtlCache/Wakeups.antt =====
-- No call of `Load` waits for a fetch that has ended.
use mathlib.Core.Option.{some-injective}
use subsyncd.Common.{
  List, ◌≡◌, Bool, true, ℕ, Option, Option-cases, inl, ◌+◌, some, ◌≤◌, subst, sym, refl, none,
  ==_iff, inr, arith, ◌∷◌, ◌||◌, [], ◌&&◌, suc, zero, get_elem?, any, ◌==◌, Bool-cases, false,
}
use subsyncd.Provider.TtlCache.{
  TtlCache, Phase, Cached, enter, complete, leave, register, Fetched, returned, keep_answer,
  lookup_locked, entering, fetching, waiting,
}
use subsyncd.Provider.TtlCache.Calls.{
  advance, Move, fetches, flights, enters, completes, leaves, sum_of, turn, run,
}
use subsyncd.Common.Text.{String, eq_iff, str_eq}
use subsyncd.Common.Time.{Instant}
use subsyncd.Provider.TtlCache.Places.{placed_in, flies, placed-end, placed-begin, flies-same}
use subsyncd.Provider.TtlCache.SingleFlight.{
  Same, keep_answer-same, lookup_locked-Same, register_begin, register_join, flights_le_one,
  IsSingle, turn-IsSingle, run-IsSingle,
}

abbrev pub placed : {V : Type 0} → TtlCache V → Phase V → Bool
placed c p = placed_in c.in_flight c.closed p

module _ {V : Type 0} (visit : List (Cached V) → List (Cached V)) where
  placed-same :
      (c c' : TtlCache V) (q : Phase V)
      → c'.in_flight ≡ c.in_flight
      → c'.closed ≡ c.closed
      → placed c q ≡ true
      → placed c' q ≡ true
  placed-same c c' q s t h = rw s (rw t h)

  -- What a step does to the places of another call, `q`, and of the call itself.
  abbrev Stays : TtlCache V → Phase V → TtlCache V × Phase V → Type 0
  Stays c q r = (placed r.0 q ≡ true) × (placed r.0 r.1 ≡ true)

  register-Stays :
      (c : TtlCache V) (k : String) (q : Phase V)
      → placed c q ≡ true
      → Stays c q (register visit c k)
  register-Stays c k q h = elim (Option-cases (c.in_flight k)) [
    | inl free ↦ subst (Stays c q) (sym (register_begin visit c k free)) (
      placed-begin c.in_flight k c.next_channel c.closed q free h,
      rw ((eq_iff k k).1 refl) ((==_iff c.next_channel c.next_channel).1 refl),
    )
    | inr (d, busy) ↦
        let flight : flies (c.in_flight k) d ≡ true = rw busy ((==_iff d d).1 refl) in
        let joins : (c.closed d || flies (c.in_flight k) d) ≡ true = ground arith in
        subst (Stays c q) (sym (register_join visit c k d busy)) (h, joins)
  ]

  enter-Stays :
      (c : TtlCache V) (now : Instant) (k : String) (q : Phase V)
      → placed c q ≡ true
      → Stays c q (enter visit c now k)
  unfolding enter
  enter-Stays c now k q h = go (lookup_locked c now k) (lookup_locked-Same visit c now k)
    where
      go :
          (r : TtlCache V × Option V)
          → Same visit c r
          → Stays c q (elim r.1 [ some v ↦ (r.0, returned (some v)) | none ↦ register visit r.0 k ])
      go (c', some v) (s, _, t) = (placed-same c c' q s t h, refl)
      go (c', none) (s, _, t) = register-Stays c' k q (placed-same c c' q s t h)

  complete-Stays :
      (c : TtlCache V) (now : Instant) (k : String) (d : ℕ) (result : Fetched V) (q : Phase V)
      → flies (c.in_flight k) d ≡ true
      → placed c q ≡ true
      → fetches k q ≡ 0
      → Stays c q (complete visit c now k d result)
  unfolding complete
  complete-Stays c now k d result q p h f =
      let (s, _, t) = keep_answer-same visit c now k result in
      let kept = keep_answer visit c now k result in
      (placed-end kept.in_flight k d kept.closed q (rw s p) (placed-same c kept q s t h) f, refl)

  advance-Stays :
      (c : TtlCache V) (p : Phase V) (move : Move V) (q : Phase V)
      → placed c p ≡ true
      → placed c q ≡ true
      → ((k : String) → fetches k p + fetches k q ≤ flights (c.in_flight k))
      → Stays c q (advance visit c p move)
  unfolding advance leave
  advance-Stays c (entering k) (enters now) q p h f = enter-Stays c now k q h
  advance-Stays c (entering k) (completes now result) q p h f = (h, p)
  advance-Stays c (entering k) (leaves ctx_done) q p h f = (h, p)
  advance-Stays c (fetching k d) (completes now result) q p h f =
      let self : str_eq k k ≡ true = (eq_iff k k).1 refl in
      complete-Stays c now k d result q p h
        (ground (arith, f k, flights_le_one visit (c.in_flight k)))
  advance-Stays c (fetching k d) (enters now) q p h f = (h, p)
  advance-Stays c (fetching k d) (leaves ctx_done) q p h f = (h, p)
  advance-Stays c (waiting k d) (leaves ctx_done) q p h f = ground arith
  advance-Stays c (waiting k d) (enters now) q p h f = (h, p)
  advance-Stays c (waiting k d) (completes now result) q p h f = (h, p)
  advance-Stays c (returned r) move q p h f = (h, p)

  abbrev pub all_placed : TtlCache V → List (Phase V) → Bool
  all_placed c [] = true
  all_placed c (p ∷ ps) = let rest = all_placed c ps in placed c p && rest

  -- A turn of one of the others leaves a call's place as it was.
  turn-stays :
      (c : TtlCache V) (ps : List (Phase V)) (i : ℕ) (move : Move V) (q : Phase V)
      → all_placed c ps ≡ true
      → placed c q ≡ true
      → ((k : String) → sum_of (fetches k) ps + fetches k q ≤ flights (c.in_flight k))
      → placed (turn visit c ps i move).0 q ≡ true
  unfolding turn
  turn-stays c [] i move q a h f = h
  turn-stays c (p ∷ ps) zero move q a h f =
      (advance-Stays c p move q (ground arith) h (λ k. omega (arith, f k))).0
  turn-stays c (p ∷ ps) (suc i) move q a h f =
      turn-stays c ps i move q (ground arith) h (λ k. omega (arith, f k))

  all_stay :
      (c : TtlCache V) (p : Phase V) (move : Move V) (ps : List (Phase V))
      → placed c p ≡ true
      → all_placed c ps ≡ true
      → ((k : String) → fetches k p + sum_of (fetches k) ps ≤ flights (c.in_flight k))
      → all_placed (advance visit c p move).0 ps ≡ true
  all_stay c p move [] h a f = refl
  all_stay c p move (q ∷ ps) h a f =
      let this = (advance-Stays c p move q h (ground arith) (λ k. omega (arith, f k))).0 in
      let rest = all_stay c p move ps h (ground arith) (λ k. omega (arith, f k)) in rw this rest

  turn-all_placed :
      (c : TtlCache V) (ps : List (Phase V)) (i : ℕ) (move : Move V)
      → all_placed c ps ≡ true
      → ((k : String) → sum_of (fetches k) ps ≤ flights (c.in_flight k))
      → all_placed (turn visit c ps i move).0 (turn visit c ps i move).1 ≡ true
  unfolding turn
  turn-all_placed c [] i move a f = refl
  turn-all_placed c (p ∷ ps) zero move a f =
      let (_, self) =
        advance-Stays c p move (returned none) (ground arith) refl (λ k. omega (arith, f k)) in
      rw self (all_stay c p move ps (ground arith) (ground arith) f)
  turn-all_placed c (p ∷ ps) (suc i) move a f =
      let this = turn-stays c ps i move p (ground arith) (ground arith) (λ k. omega (arith, f k)) in
      rw this (turn-all_placed c ps i move (ground arith) (λ k. omega (arith, f k)))

  run-all_placed :
      (c : TtlCache V) (ps : List (Phase V)) (moves : List (ℕ × Move V))
      → IsSingle c ps
      → all_placed c ps ≡ true
      → all_placed (run visit c ps moves).0 (run visit c ps moves).1 ≡ true
  unfolding run
  run-all_placed c ps [] h a = a
  run-all_placed c ps ((i, move) ∷ moves) h a =
      run-all_placed (turn visit c ps i move).0 (turn visit c ps i move).1 moves
        (turn-IsSingle visit c ps i move h)
        (turn-all_placed c ps i move a (λ k. omega (arith, h.single k)))

all_placed-elem :
    {V : Type 0} (visit : List (Cached V) → List (Cached V)) (c : TtlCache V) (ps : List (Phase V))
    (i : ℕ) (p : Phase V)
    → all_placed visit c ps ≡ true
    → get_elem? ps i ≡ some p
    → placed c p ≡ true
all_placed-elem visit c [] i p a h = absurd (ground arith)
all_placed-elem visit c (q ∷ ps) zero p a h =
    subst (λ x. placed c x ≡ true) (some-injective q p h) (ground arith)
all_placed-elem visit c (q ∷ ps) (suc i) p a h = all_placed-elem visit c ps i p (ground arith) h

flies-flights : (o : Option ℕ) (d : ℕ) → flies o d ≡ true → flights o ≡ 1
flies-flights none d h = absurd (ground arith)
flies-flights (some e) d h = refl

-- The call that fetches a key on a channel.
abbrev pub fetches_on : {V : Type 0} → String → ℕ → Phase V → Bool
fetches_on k d (fetching k' d') = str_eq k k' && d' == d
fetches_on k d _ = false

fetcher_exists :
    {V : Type 0} (visit : List (Cached V) → List (Cached V)) (c : TtlCache V) (ps : List (Phase V))
    (k : String) (d : ℕ)
    → all_placed visit c ps ≡ true
    → flies (c.in_flight k) d ≡ true
    → 1 ≤ sum_of (fetches k) ps
    → any (fetches_on k d) ps ≡ true
fetcher_exists visit c [] k d a h s = absurd (omega arith)
fetcher_exists visit c (fetching k' d' ∷ ps) k d a h s = elim (Bool-cases (str_eq k k')) [
  | inl y ↦
      let here : flies (c.in_flight k) d' ≡ true =
        subst (λ (t : String). flies (c.in_flight t) d' ≡ true) (sym ((eq_iff k k').0 y))
          (ground arith) in
      let same : d' ≡ d = flies-same (c.in_flight k) d' d here h in
      rw y (rw ((==_iff d' d).1 same) refl)
  | inr n ↦ rw n (fetcher_exists visit c ps k d (ground arith) h (ground arith))
]
fetcher_exists visit c (entering k' ∷ ps) k d a h s =
    fetcher_exists visit c ps k d a h (omega (arith, s))
fetcher_exists visit c (waiting k' d' ∷ ps) k d a h s =
    fetcher_exists visit c ps k d (ground arith) h (omega (arith, s))
fetcher_exists visit c (returned r ∷ ps) k d a h s =
    fetcher_exists visit c ps k d a h (omega (arith, s))

-- No wakeup is lost: after any interleaving, a call that waits on a channel that is not closed
-- waits for a call that is still fetching that key, and will close that channel when it ends.
pub run-wakes :
    {V : Type 0} (visit : List (Cached V) → List (Cached V)) (c : TtlCache V) (ps : List (Phase V))
    (moves : List (ℕ × Move V)) (i : ℕ) (k : String) (d : ℕ)
    → IsSingle c ps
    → all_placed visit c ps ≡ true
    → get_elem? (run visit c ps moves).1 i ≡ some (waiting k d)
    → (run visit c ps moves).0.closed d ≡ false
    → any (fetches_on k d) (run visit c ps moves).1 ≡ true
run-wakes visit c ps moves i k d h a e o =
    let (c', ps') = run visit c ps moves in
    let a' = run-all_placed visit c ps moves h a in
    let here = all_placed-elem visit c' ps' i (waiting k d) a' e in
    let flight : flies (c'.in_flight k) d ≡ true = ground arith in
    fetcher_exists visit c' ps' k d a' flight (
      omega (
        arith,
        (run-IsSingle visit c ps moves h).single k,
        flies-flights (c'.in_flight k) d flight,
      ))
