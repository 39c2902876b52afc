-- ===== src/Provider/TtlCache/SingleFlight.antt =====
-- At most one fetch of a key at a time, over every interleaving of the calls of `Load`.
use subsyncd.Common.{
  List, ℕ, Option, Bool, ◌≡◌, some, Option-cases, arith, ◌+◌, ◌≤◌, none, inl, ◌∷◌, true,
  if◌then◌else◌, refl, ap, false, suc, ◌||◌, [], subst, zero, Bool-cases, sym, inr, tests,
}
use subsyncd.Provider.TtlCache.{
  TtlCache, Phase, Cached, leave, complete, keep_answer, enter, register, Fetched, lookup_locked,
  entering, store_locked, answer, returned, fetching, find, waiting, failed,
}
use subsyncd.Provider.TtlCache.Calls.{
  turn, run, advance, Move, fetches, sum_of, flights, waits, enters, completes, leaves,
}
use subsyncd.Common.Text.{String, str_eq, eq_iff}
use subsyncd.Common.Time.{Instant, before}
use subsyncd.Provider.TtlCache.Store.{lookup_miss, lookup_hit, lookup_stale}

-- One call fetches each key that is in flight, none any other, and `waiters` counts those who wait.
pub record IsSingle {V : Type 0} (c : TtlCache V) (ps : List (Phase V)) : Type 0 where
  pub single : (k : String) → sum_of (fetches k) ps ≡ flights (c.in_flight k)
  pub counted : c.waiters ≡ sum_of waits ps

module _ {V : Type 0} (visit : List (Cached V) → List (Cached V)) where
  -- A step from one cache and phase to others changes the flights as it changes the fetches, and
  -- the waiters as it changes the waits.
  abbrev Balances : String → TtlCache V × Phase V → TtlCache V × Phase V → Type 0
  Balances k (c, p) (c', p') =
      (fetches k p' + flights (c.in_flight k) ≡ fetches k p + flights (c'.in_flight k))
      × (c'.waiters + waits p ≡ c.waiters + waits p')

  pub register_begin :
      (c : TtlCache V) (k : String)
      → c.in_flight k ≡ none
      → register visit c k ≡ (
        record c {
          in_flight = λ k'. if str_eq k' k then some c.next_channel else c.in_flight k';
          next_channel = c.next_channel + 1;
        },
        fetching k c.next_channel,
      )
  unfolding register
  register_begin c k h = rw (h, register) refl

  pub register_join :
      (c : TtlCache V) (k : String) (d : ℕ)
      → c.in_flight k ≡ some d
      → register visit c k ≡ (record c { waiters = c.waiters + 1 }, waiting k d)
  unfolding register
  register_join c k d h = rw (h, register) refl

  register-Balances :
      (c : TtlCache V) (k k' : String) → Balances k (c, entering k') (register visit c k')
  unfolding register
  register-Balances c k k' = elim (Option-cases (c.in_flight k')) [
    | inl open_ ↦
        subst (Balances k (c, entering k')) (sym (register_begin c k' open_))
          (elim (Bool-cases (str_eq k k')) [
            | inl y ↦
                let free : c.in_flight k ≡ none =
                  subst (λ (t : String). c.in_flight t ≡ none) (sym ((eq_iff k k').0 y)) open_ in
                rw y (rw free (refl, refl))
            | inr n ↦ rw n (refl, refl)
          ])
    | inr (d, busy) ↦
        subst (Balances k (c, entering k')) (sym (register_join c k' d busy)) (refl, omega arith)
  ]

  -- A lookup touches neither the flights nor the waiters nor the channels.
  abbrev pub Same : TtlCache V → TtlCache V × Option V → Type 0
  Same c r = (r.0.in_flight ≡ c.in_flight) × (r.0.waiters ≡ c.waiters) × (r.0.closed ≡ c.closed)

  pub lookup_locked-Same :
      (c : TtlCache V) (now : Instant) (k : String) → Same c (lookup_locked c now k)
  lookup_locked-Same c now k = elim (Option-cases (find k c.entries)) [
    | inl miss ↦ subst (Same c) (sym (lookup_miss c now k miss)) (refl, refl, refl)
    | inr (e, hit) ↦ elim (Bool-cases (before now (e.stored + c.ttl))) [
      | inl fresh ↦
          subst (Same c) (sym (lookup_hit c now k e hit (omega (tests, fresh)))) (refl, refl, refl)
      | inr stale ↦ subst (Same c) (sym (lookup_stale c now k e hit stale)) (refl, refl, refl)
    ]
  ]

  pub flights_le_one : (o : Option ℕ) → flights o ≤ 1
  flights_le_one none = omega arith
  flights_le_one (some d) = omega arith

  pub keep_answer-same :
      (c : TtlCache V) (now : Instant) (k : String) (result : Fetched V)
      → ((keep_answer visit c now k result).in_flight ≡ c.in_flight)
        × ((keep_answer visit c now k result).waiters ≡ c.waiters)
        × ((keep_answer visit c now k result).closed ≡ c.closed)
  unfolding keep_answer store_locked
  keep_answer-same c now k (answer value true) = (refl, refl, refl)
  keep_answer-same c now k (answer value false) = (refl, refl, refl)
  keep_answer-same c now k failed = (refl, refl, refl)

  enter-Balances :
      (c : TtlCache V) (now : Instant) (k k' : String)
      → Balances k (c, entering k') (enter visit c now k')
  unfolding enter
  enter-Balances c now k k' = go (lookup_locked c now k') (lookup_locked-Same c now k')
    where
      go :
          (r : TtlCache V × Option V)
          → Same c r
          → Balances k
              (c, entering k')
              (elim r.1 [ some v ↦ (r.0, returned (some v)) | none ↦ register visit r.0 k' ])
      go (c', some v) (s, t, _) =
          let f : flights (c'.in_flight k) ≡ flights (c.in_flight k) = ap (λ m. flights (m k)) s in
          (omega (arith, f), omega (arith, t))
      go (c', none) (s, t, _) =
          let f : flights (c'.in_flight k) ≡ flights (c.in_flight k) = ap (λ m. flights (m k)) s in
          let (fetch, wait) = register-Balances c' k k' in
          (omega (arith, fetch, f), omega (arith, wait, t))

  complete-Balances :
      (c : TtlCache V) (now : Instant) (k k' : String) (d : ℕ) (result : Fetched V)
      → 1 ≤ flights (c.in_flight k')
      → Balances k (c, fetching k' d) (complete visit c now k' d result)
  unfolding complete
  complete-Balances c now k k' d result h =
      let (s, t, _) = keep_answer-same c now k' result in
      let f : flights ((keep_answer visit c now k' result).in_flight k) ≡ flights (c.in_flight k) =
        ap (λ m. flights (m k)) s in
      elim (Bool-cases (str_eq k k')) [
        | inl y ↦
            let one : 1 ≤ flights (c.in_flight k) =
              subst (λ (i : String). 1 ≤ flights (c.in_flight i)) (sym ((eq_iff k k').0 y)) h in
            rw y (omega (arith, one, flights_le_one (c.in_flight k)), omega (arith, t))
        | inr n ↦ rw n (omega (arith, f), omega (arith, t))
      ]

  leave-Balances :
      (c : TtlCache V) (k k' : String) (d : ℕ) (ctx_done : Bool)
      → 1 ≤ c.waiters
      → Balances k
          (c, waiting k' d)
          (if c.closed d || ctx_done then leave visit c k' ctx_done else (c, waiting k' d))
  unfolding leave
  leave-Balances c k k' d ctx_done h = elim (Bool-cases (c.closed d || ctx_done)) [
    | inr stays ↦ rw stays (refl, refl)
    | inl goes ↦ rw goes (left ctx_done)
  ]
    where
      left : (b : Bool) → Balances k (c, waiting k' d) (leave visit c k' b)
      left true = (refl, omega arith)
      left false = (refl, omega arith)

  advance-Balances :
      (c : TtlCache V) (k : String) (p : Phase V) (move : Move V)
      → ((k' : String) → fetches k' p ≤ flights (c.in_flight k'))
      → waits p ≤ c.waiters
      → Balances k (c, p) (advance visit c p move)
  unfolding advance
  advance-Balances c k (entering k') (enters now) h w = enter-Balances c now k k'
  advance-Balances c k (entering k') (completes now result) h w = (refl, refl)
  advance-Balances c k (entering k') (leaves ctx_done) h w = (refl, refl)
  advance-Balances c k (fetching k' d) (completes now result) h w =
      complete-Balances c now k k' d result (ground (arith, h k', (eq_iff k' k').1 refl))
  advance-Balances c k (fetching k' d) (enters now) h w = (refl, refl)
  advance-Balances c k (fetching k' d) (leaves ctx_done) h w = (refl, refl)
  advance-Balances c k (waiting k' d) (leaves ctx_done) h w = leave-Balances c k k' d ctx_done w
  advance-Balances c k (waiting k' d) (enters now) h w = (refl, refl)
  advance-Balances c k (waiting k' d) (completes now result) h w = (refl, refl)
  advance-Balances c k (returned r) move h w = (refl, refl)

  turn-balances :
      (c : TtlCache V) (ps : List (Phase V)) (i : ℕ) (move : Move V) (k : String)
      → ((k' : String) → sum_of (fetches k') ps ≤ flights (c.in_flight k'))
      → sum_of waits ps ≤ c.waiters
      → let (c', ps') = turn visit c ps i move in
        (sum_of (fetches k) ps' + flights (c.in_flight k)
          ≡ sum_of (fetches k) ps + flights (c'.in_flight k))
        × (c'.waiters + sum_of waits ps ≡ c.waiters + sum_of waits ps')
  unfolding turn
  turn-balances c [] i move k h w = (refl, refl)
  turn-balances c (p ∷ ps) zero move k h w =
      let (fetch, wait) = advance-Balances c k p move (λ k'. omega (arith, h k')) (omega arith) in
      (omega (arith, fetch), omega (arith, wait))
  turn-balances c (p ∷ ps) (suc i) move k h w =
      let (fetch, wait) = turn-balances c ps i move k (λ k'. omega (arith, h k')) (omega arith) in
      (omega (arith, fetch), omega (arith, wait))

  pub turn-IsSingle :
      (c : TtlCache V) (ps : List (Phase V)) (i : ℕ) (move : Move V)
      → IsSingle c ps
      → IsSingle (turn visit c ps i move).0 (turn visit c ps i move).1
  turn-IsSingle c ps i move h =
      let balance = λ (k : String).
        turn-balances c ps i move k (λ k'. omega (arith, h.single k')) (omega (arith, h.counted)) in
      record {
        single = λ k. omega (arith, h.single k, (balance k).0);
        counted = omega (arith, h.counted, (balance "").1);
      }

  -- Whatever the order of the calls' critical sections, the clock and the outcomes, a key is never
  -- fetched by two calls at once, a key is in flight exactly while a call fetches it, and `waiters`
  -- is the number of calls that wait.
  pub run-IsSingle :
      (c : TtlCache V) (ps : List (Phase V)) (moves : List (ℕ × Move V))
      → IsSingle c ps
      → IsSingle (run visit c ps moves).0 (run visit c ps moves).1
  unfolding run
  run-IsSingle c ps [] h = h
  run-IsSingle c ps ((i, move) ∷ moves) h =
      run-IsSingle (turn visit c ps i move).0 (turn visit c ps i move).1 moves
        (turn-IsSingle c ps i move h)
