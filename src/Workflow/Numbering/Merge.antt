-- ===== src/Workflow/Numbering/Merge.antt =====
-- What the merge keeps of the search under Arr's numbering.
use mathlib.Core.List.{append-nil, append_assoc}
use mathlib.Core.Bool.{true≢false}
use mathlib.Core.Option.{some-injective, none-ne-some}
use subsyncd.Workflow.Numbering.{
  Key, index_from, merge_hit, Hit, same_key, Merged, key_of, put_index, set_at, merge_hits,
  merge_release_numbered_search, SearchResult,
}
use subsyncd.Common.{
  List, ℕ, Option, get_elem?, ◌≡◌, ◌++◌, map, true, some, ◌∷◌, ◌+◌, ap, [], length, arith, refl,
  Bool-cases, sym, subst, suc, inl, ◌∙◌, Option-cases, zero, inr, Bool, if◌then◌else◌, none, false,
  any,
}
use subsyncd.Common.Int.{ℤ}
use subsyncd.Common.Text.{str_eq, eq_iff, String}

abbrev pub keys : List Hit → List Key
keys hits = map key_of hits

-- Every position in the index is one of its key.
abbrev Sound : List Key → (Key → Option ℕ) → Type 0
Sound ks index = (k : Key) (i : ℕ) → index k ≡ some i → get_elem? ks i ≡ some k

same_key_lem : (a b : Key) → same_key a b ≡ true → a ≡ b
same_key_lem (a, b) (c, d) h =
    let p : str_eq a c ≡ true = ground arith in
    let q : str_eq b d ≡ true = ground arith in λ i. ((eq_iff a c).0 p i, (eq_iff b d).0 q i)

put_index-Sound :
    (ks : List Key) (k : Key) (position : ℕ) (index : Key → Option ℕ)
    → get_elem? ks position ≡ some k
    → Sound ks index
    → Sound ks (put_index k position index)
put_index-Sound ks k position index h s k' i e = elim (Bool-cases (same_key k k')) [
  | inl y ↦
      let at : position ≡ i = some-injective position i (sym (rw y refl) ∙ e) in
      subst (λ t. get_elem? ks i ≡ some t) (same_key_lem k k' y)
        (subst (λ j. get_elem? ks j ≡ some k) at h)
  | inr n ↦ s k' i (sym (rw n refl) ∙ e)
]

get_elem?-append :
    (xs ys : List Key) (i : ℕ) (k : Key) → get_elem? xs i ≡ some k → get_elem? (xs ++ ys) i ≡ some k
get_elem?-append [] ys i k h = absurd (none-ne-some _ h)
get_elem?-append (x ∷ xs) ys zero k h = h
get_elem?-append (x ∷ xs) ys (suc i) k h = get_elem?-append xs ys i k h

get_elem?-end :
    (hits : List Hit) (c : Hit)
    → get_elem? (keys hits ++ key_of c ∷ []) (length hits) ≡ some (key_of c)
get_elem?-end [] c = refl
get_elem?-end (x ∷ hits) c = get_elem?-end hits c

keys-append : (xs ys : List Hit) → keys (xs ++ ys) ≡ keys xs ++ keys ys
keys-append [] ys = refl
keys-append (x ∷ xs) ys = ap (λ r. key_of x ∷ r) (keys-append xs ys)

keys-set_at :
    (hits : List Hit) (i : ℕ) (c : Hit)
    → get_elem? (keys hits) i ≡ some (key_of c)
    → keys (set_at hits i c) ≡ keys hits
keys-set_at [] i c h = refl
keys-set_at (x ∷ hits) zero c h = ap (λ k. k ∷ keys hits) (sym (some-injective _ _ h))
keys-set_at (x ∷ hits) (suc i) c h = ap (λ r. key_of x ∷ r) (keys-set_at hits i c h)

index_from-Sound :
    (ks : List Key) (position : ℕ) (index : Key → Option ℕ) (cs : List Hit)
    → ((i : ℕ) → get_elem? ks (position + i) ≡ get_elem? (keys cs) i)
    → Sound ks index
    → Sound ks (index_from position index cs)
unfolding index_from
index_from-Sound ks position index [] h s = s
index_from-Sound ks position index (c ∷ cs) h s =
    index_from-Sound ks (position + 1) (put_index (key_of c) position index) cs
      (λ i. subst (λ j. get_elem? ks j ≡ get_elem? (keys cs) i) (omega arith) (h (suc i)))
      (put_index-Sound ks (key_of c) position index
        (subst (λ j. get_elem? ks j ≡ some (key_of c)) (omega arith) (h 0)) s)

-- Every key has a position in the index.
abbrev Complete : List Key → (Key → Option ℕ) → Type 0
Complete ks index = (k : Key) → index k ≡ none → any (same_key k) ks ≡ false

same_key_refl : (k : Key) → same_key k k ≡ true
same_key_refl (a, b) = ground (arith, eq_iff a a, eq_iff b b)

same_key_swap : (a b : Key) → same_key a b ≡ false → same_key b a ≡ false
same_key_swap a b h = elim (Bool-cases (same_key b a)) [
  | inr n ↦ n
  | inl y ↦
      absurd (true≢false (sym (same_key_refl a) ∙ ap (same_key a) (sym (same_key_lem b a y)) ∙ h))
]

any-end :
    (k' k : Key) (ks : List Key)
    → any (same_key k') ks ≡ false
    → same_key k' k ≡ false
    → any (same_key k') (ks ++ k ∷ []) ≡ false
any-end k' k [] h n = rw n refl
any-end k' k (x ∷ ks) h n = ground (arith, any-end k' k ks)

put_index-Complete :
    (ks : List Key) (k : Key) (position : ℕ) (index : Key → Option ℕ)
    → Complete ks index
    → Complete (ks ++ k ∷ []) (put_index k position index)
put_index-Complete ks k position index c k' e = elim (Bool-cases (same_key k k')) [
  | inl y ↦ absurd (none-ne-some position (sym (sym (rw y refl) ∙ e)))
  | inr n ↦ any-end k' k ks (c k' (sym (rw n refl) ∙ e)) (same_key_swap k k' n)
]

index_from-Complete :
    (ks : List Key) (position : ℕ) (index : Key → Option ℕ) (cs : List Hit)
    → Complete ks index
    → Complete (ks ++ keys cs) (index_from position index cs)
unfolding index_from
index_from-Complete ks position index [] c = subst (λ t. Complete t index) (sym (append-nil ks)) c
index_from-Complete ks position index (x ∷ cs) c =
    subst (λ t. Complete t (index_from (position + 1) (put_index (key_of x) position index) cs))
      (append_assoc ks (key_of x ∷ []) (keys cs))
      (index_from-Complete (ks ++ key_of x ∷ []) (position + 1)
        (put_index (key_of x) position index) cs
        (put_index-Complete ks (key_of x) position index c))

any-at : (ks : List Key) (i : ℕ) (k : Key) → get_elem? ks i ≡ some k → any (same_key k) ks ≡ true
any-at [] i k h = absurd (none-ne-some _ h)
any-at (x ∷ ks) zero k h = rw (ap (same_key k) (some-injective _ _ h) ∙ same_key_refl k) refl
any-at (x ∷ ks) (suc i) k h = ground (arith, any-at ks i k h)

-- The keys that are not among those known, each once, in order.
abbrev pub fresh_keys : List Key → List Key → List Key
fresh_keys known [] = []
fresh_keys known (k ∷ rest) =
    let seen = fresh_keys known rest in
    let new = k ∷ fresh_keys (known ++ k ∷ []) rest in if any (same_key k) known then seen else new

-- A merge whose index has the position of every key.
abbrev Indexed : Merged → Type 0
Indexed m = Sound (keys m.hits) m.index × Complete (keys m.hits) m.index

-- What a merge of one hit does to the keys.
abbrev Adds : Merged → Key → Merged → Type 0
Adds m k m' =
    Indexed m'
    × (keys m'.hits
        ≡ (if any (same_key k) (keys m.hits) then keys m.hits else keys m.hits ++ k ∷ []))

Adds-either :
    (m : Merged) (k : Key) (b : Bool) (n n' : Merged)
    → Adds m k n
    → Adds m k n'
    → Adds m k (if b then n else n')
Adds-either m k true n n' h h' = h
Adds-either m k false n n' h h' = h'

Adds-new :
    (m : Merged) (c : Hit) (found : List String)
    → m.index (key_of c) ≡ none
    → Indexed m
    → Adds m (key_of c) (record {
      hits = m.hits ++ c ∷ [];
      index = put_index (key_of c) (length m.hits) m.index;
      found = found;
    })
Adds-new m c found new (s, full) =
    let k = key_of c in
    let grown = keys-append m.hits (c ∷ []) in
    (
      (
        subst (λ t. Sound t (put_index k (length m.hits) m.index)) (sym grown)
            (put_index-Sound (keys m.hits ++ k ∷ []) k (length m.hits) m.index
              (get_elem?-end m.hits c)
              (λ k' i h. get_elem?-append (keys m.hits) (k ∷ []) i k' (s k' i h))),
        subst (λ t. Complete t (put_index k (length m.hits) m.index)) (sym grown)
            (put_index-Complete (keys m.hits) k (length m.hits) m.index full),
      ),
      rw (full k new) grown,
    )

Adds-old : (m : Merged) (i : ℕ) (k : Key) → m.index k ≡ some i → Indexed m → Adds m k m
Adds-old m i k old (s, full) = ((s, full), rw (any-at (keys m.hits) i k (s k i old)) refl)

Adds-set_at :
    (m : Merged) (i : ℕ) (c : Hit) (found : List String)
    → m.index (key_of c) ≡ some i
    → Indexed m
    → Adds m (key_of c) (record { hits = set_at m.hits i c; index = m.index; found = found })
Adds-set_at m i c found old (s, full) =
    let at = s (key_of c) i old in
    let same = keys-set_at m.hits i c at in
    (
      (subst (λ t. Sound t m.index) (sym same) s, subst (λ t. Complete t m.index) (sym same) full),
      rw (any-at (keys m.hits) i (key_of c) at) same,
    )

merge_hit-Adds :
    (rs as_ : ℤ) (m : Merged) (hit : Hit) → Indexed m → Adds m (key_of hit) (merge_hit rs as_ m hit)
unfolding merge_hit
merge_hit-Adds rs as_ m hit h =
    let c = record hit { release_numbered = true } in
    elim (Option-cases (m.index (key_of hit))) [
      | inl new ↦ rw (new, merge_hit) (Adds-new m c (c.provider_id ∷ m.found) new h)
      | inr (i, old) ↦
          rw (old, merge_hit)
            (Adds-either m (key_of hit) _ _ m (Adds-set_at m i c (c.provider_id ∷ m.found) old h)
              (Adds-old m i (key_of hit) old h))
    ]

merge_hits-keys :
    (rs as_ : ℤ) (m : Merged) (hits : List Hit)
    → Indexed m
    → keys (merge_hits rs as_ m hits).hits ≡ keys m.hits ++ fresh_keys (keys m.hits) (keys hits)
unfolding merge_hits
merge_hits-keys rs as_ m [] h = sym (append-nil (keys m.hits))
merge_hits-keys rs as_ m (c ∷ cs) h =
    let (indexed, added) = merge_hit-Adds rs as_ m c h in
    let rest = merge_hits-keys rs as_ (merge_hit rs as_ m c) cs indexed in
    elim (Bool-cases (any (same_key (key_of c)) (keys m.hits))) [
      | inl y ↦
          let same : keys (merge_hit rs as_ m c).hits ≡ keys m.hits =
            subst
              (λ b.
                keys (merge_hit rs as_ m c).hits
                ≡ (if b then keys m.hits else keys m.hits ++ key_of c ∷ []))
              y added in
          rw y (rest ∙ ap (λ t. t ++ fresh_keys t (keys cs)) same)
      | inr n ↦
          let grown : keys (merge_hit rs as_ m c).hits ≡ keys m.hits ++ key_of c ∷ [] =
            subst
              (λ b.
                keys (merge_hit rs as_ m c).hits
                ≡ (if b then keys m.hits else keys m.hits ++ key_of c ∷ []))
              n added in
          rw n (
            rest
            ∙ ap (λ t. t ++ fresh_keys t (keys cs)) grown
            ∙ append_assoc (keys m.hits) (key_of c ∷ [])
                (fresh_keys (keys m.hits ++ key_of c ∷ []) (keys cs)))
    ]

-- The keys after the merge are those of the search under Arr's numbering, none lost or moved, and
-- then those of the release search that are new, each once, in its order.
pub merge_release_numbered_search-keys :
    (arr release : SearchResult) (rs as_ : ℤ)
    → keys (merge_release_numbered_search arr release rs as_).candidates
      ≡ keys arr.candidates ++ fresh_keys (keys arr.candidates) (keys release.candidates)
unfolding merge_release_numbered_search
merge_release_numbered_search-keys arr release rs as_ =
    let start : Merged = record {
      hits = arr.candidates;
      index = index_from 0 (λ _. none) arr.candidates;
      found = [];
    } in
    let sound =
      index_from-Sound (keys arr.candidates) 0 (λ _. none) arr.candidates
        (λ i. ap (get_elem? (keys arr.candidates)) (omega arith))
        (λ k i h. absurd (none-ne-some _ h)) in
    let full = index_from-Complete [] 0 (λ _. none) arr.candidates (λ k h. refl) in
    merge_hits-keys rs as_ start release.candidates (sound, full)
