-- ===== src/Provider/TtlCache/Freshness.antt =====
-- What is found of the entries after a removal or an eviction.
use subsyncd.Common.Text.{String, str_eq, eq_iff}
use subsyncd.Provider.TtlCache.{Cached, remove, TtlCache, find, has_key, evict, scan}
use subsyncd.Common.{
  List, ◌≡◌, Bool, any, none, false, some, true, ◌∷◌, arith, length, Bool-cases, any-keep-false, [],
  not, ◌≤◌, refl, ◌&&◌, inl, inr, subst, sym, ◌∙◌, any_mono, ℕ, ltb, suc, zero, ap,
}
use subsyncd.Common.Time.{Instant}
use subsyncd.Provider.TtlCache.Eviction.{is_at, IsVisit}
use mathlib.Core.Option.{some-injective}

module _ {V : Type 0} where
  -- No two entries have one key.
  abbrev pub unique : List (Cached V) → Bool
  unique [] = true
  unique (e ∷ es) = let rest = unique es in not (any (has_key e.key) es) && rest

  -- Each key once, none of them empty, and no more than the limit.
  pub record IsCache (c : TtlCache V) : Type 0 where
    pub distinct : unique c.entries ≡ true
    pub named : any (has_key "") c.entries ≡ false
    pub bounded : length c.entries ≤ c.limit

  pub unique-remove :
      (k : String) (es : List (Cached V)) → unique es ≡ true → unique (remove k es) ≡ true
  unfolding remove
  unique-remove k [] h = h
  unique-remove k (e ∷ es) h =
      ground (arith, unique-remove k es, any-keep-false (has_key e.key) (λ x. not (has_key k x)) es)

  pub any-remove_self : (k : String) (es : List (Cached V)) → any (has_key k) (remove k es) ≡ false
  unfolding remove
  any-remove_self k [] = refl
  any-remove_self k (e ∷ es) = ground (arith, any-remove_self k es)

  pub find-remove_self : (k : String) (es : List (Cached V)) → find k (remove k es) ≡ none
  unfolding remove
  find-remove_self k [] = refl
  find-remove_self k (e ∷ es) = ground (arith, find-remove_self k es)

  pub find-remove_other :
      (k o : String) (es : List (Cached V)) → str_eq o k ≡ false → find k (remove o es) ≡ find k es
  unfolding remove
  find-remove_other k o [] h = refl
  find-remove_other k o (e ∷ es) h = elim (Bool-cases (has_key o e)) [
    | inl y ↦
        let m : has_key k e ≡ false =
          subst (λ (t : String). str_eq t k ≡ false) (sym ((eq_iff e.key o).0 y)) h in
        rw y (rw m (find-remove_other k o es h))
    | inr n ↦ ground (arith, find-remove_other k o es h)
  ]

  pub find_here :
      (k : String) (x : Cached V) (es : List (Cached V))
      → has_key k x ≡ true
      → some x ≡ find k (x ∷ es)
  find_here k x es h = rw h refl

  find_there :
      (k : String) (x : Cached V) (es : List (Cached V))
      → has_key k x ≡ false
      → find k (x ∷ es) ≡ find k es
  find_there k x es h = rw h refl

  pub has_key-shared :
      (k : String) (x z : Cached V)
      → has_key k x ≡ true
      → has_key k z ≡ true
      → has_key x.key z ≡ true
  has_key-shared k x z h g =
      subst (λ (t : String). str_eq z.key t ≡ true) (sym ((eq_iff x.key k).0 h)) g

  -- A test that no entry passes fails for the entry that is found.
  pub find-any :
      (p : Cached V → Bool) (k : String) (es : List (Cached V)) (e : Cached V)
      → find k es ≡ some e
      → any p es ≡ false
      → p e ≡ false
  find-any p k [] e h n = absurd (ground arith)
  find-any p k (x ∷ es) e h n = elim (Bool-cases (has_key k x)) [
    | inl y ↦
        let same : x ≡ e = some-injective _ _ (find_here k x es y ∙ h) in
        subst (λ (z : Cached V). p z ≡ false) same (ground arith)
    | inr m ↦ find-any p k es e (sym (find_there k x es m) ∙ h) (ground arith)
  ]

  find-absent : (k : String) (es : List (Cached V)) → any (has_key k) es ≡ false → find k es ≡ none
  find-absent k [] h = refl
  find-absent k (x ∷ es) h = ground (arith, find-absent k es)

  -- Where keys are distinct, the entry found is the one at which a scan ended with that key.
  pub find-is_at :
      (r : String × Instant) (es : List (Cached V)) (e : Cached V)
      → unique es ≡ true
      → any (is_at r) es ≡ true
      → find r.0 es ≡ some e
      → e.stored ≡ r.1
  find-is_at r [] e u h f = absurd (ground arith)
  find-is_at r (x ∷ es) e u h f = elim (Bool-cases (has_key r.0 x)) [
    | inl y ↦
        let same : x ≡ e = some-injective _ _ (find_here r.0 x es y ∙ f) in
        let elsewhere : any (is_at r) es ≡ true → any (has_key x.key) es ≡ true = λ h'.
          any_mono (is_at r) (has_key x.key) es (λ z i. has_key-shared r.0 x z y (ground arith))
            h' in
        subst (λ (z : Cached V). z.stored ≡ r.1) same (ground (arith, elsewhere))
    | inr m ↦ find-is_at r es e (ground arith) (ground arith) (sym (find_there r.0 x es m) ∙ f)
  ]

  pub find-remove-some :
      (k o : String) (es : List (Cached V)) (e : Cached V)
      → find k (remove o es) ≡ some e
      → find k es ≡ some e
  find-remove-some k o es e h = elim (Bool-cases (str_eq o k)) [
    | inl y ↦
        let gone : find k (remove o es) ≡ none =
          subst (λ (t : String). find k (remove t es) ≡ none) (sym ((eq_iff o k).0 y))
            (find-remove_self k es) in
        absurd (ground arith)
    | inr n ↦ sym (find-remove_other k o es n) ∙ h
  ]

  module _ (visit : List (Cached V) → List (Cached V)) (v : IsVisit visit) where
    -- One turn of the loop, and its end.
    pub evict_more :
        (n limit : ℕ) (now : Instant) (es : List (Cached V))
        → ltb limit (length es) ≡ true
        → evict visit (suc n) limit now es
          ≡ evict visit n limit now (remove (scan "" now (visit es)).0 es)
    unfolding evict
    evict_more n limit now es h = rw h refl

    pub evict_done :
        (n limit : ℕ) (now : Instant) (es : List (Cached V))
        → ltb limit (length es) ≡ false
        → evict visit (suc n) limit now es ≡ es
    unfolding evict
    evict_done n limit now es h = rw h refl

    pub any-evict-false :
        (p : Cached V → Bool) (n limit : ℕ) (now : Instant) (es : List (Cached V))
        → any p es ≡ false
        → any p (evict visit n limit now es) ≡ false
    unfolding evict remove
    any-evict-false p zero limit now es h = h
    any-evict-false p (suc n) limit now es h =
        let o = (scan "" now (visit es)).0 in
        ground (
          arith,
          any-evict-false p n limit now (remove o es),
          any-keep-false p (λ x. not (has_key o x)) es h,
        )

    pub unique-evict :
        (n limit : ℕ) (now : Instant) (es : List (Cached V))
        → unique es ≡ true
        → unique (evict visit n limit now es) ≡ true
    unfolding evict
    unique-evict zero limit now es h = h
    unique-evict (suc n) limit now es h =
        let o = (scan "" now (visit es)).0 in
        ground (arith, unique-evict n limit now (remove o es) (unique-remove o es h))

    pub find-evict-some :
        (n limit : ℕ) (now : Instant) (k : String) (es : List (Cached V)) (e : Cached V)
        → find k (evict visit n limit now es) ≡ some e
        → find k es ≡ some e
    unfolding evict
    find-evict-some zero limit now k es e h = h
    find-evict-some (suc n) limit now k es e h = elim (Bool-cases (ltb limit (length es))) [
      | inl more ↦
          let o = (scan "" now (visit es)).0 in
          find-remove-some k o es e (
            find-evict-some n limit now k (remove o es) e
              (ap (find k) (sym (evict_more n limit now es more)) ∙ h))
      | inr done ↦ ap (find k) (sym (evict_done n limit now es done)) ∙ h
    ]
