-- ===== src/Store/Queue/Order.antt =====
-- Comparisons that order, and that the ORDER BY of `LeaseDueSearchesExcept`
-- (internal/store/repository.go) is one.
use Prim.Native.String.compare as text_clauses
use Prim.Native.Char.{code}
use Prim.Native.Nat.{Ordering, compare}
use Prim.Native.String.{then as or_then, compare as compare_text}
use mathlib.Core.Bool.{true≢false}
use subsyncd.Common.{◌≡◌, ℕ, Bool, refl, false, arith, true, ap, sym, ◌∙◌}
use subsyncd.Store.Queue.Due.{queue_compare}
use subsyncd.Common.Text.{String}
use subsyncd.Store.Queue.Rows.{SearchRow}

abbrev pub is_gt : Ordering → Bool
is_gt o = elim o [ Ordering.gt ↦ true | _ ↦ false ]

abbrev pub is_lt : Ordering → Bool
is_lt o = elim o [ Ordering.lt ↦ true | _ ↦ false ]

abbrev pub flip : Ordering → Ordering
flip Ordering.lt = Ordering.gt
flip Ordering.eq = Ordering.eq
flip Ordering.gt = Ordering.lt

-- A comparison that answers alike in both directions, and along a chain as its first step that is
-- not equal does.
pub record IsOrder {A : Type 0} (cmp : A → A → Ordering) : Type 0 where
  pub swap : (x y : A) → cmp y x ≡ flip (cmp x y)
  pub chain :
      (x y z : A)
      → is_gt (cmp x y) ≡ false
      → is_gt (cmp y z) ≡ false
      → cmp x z ≡ or_then (cmp x y) (cmp y z)

flip-then : (a b a' b' : Ordering) → a' ≡ flip a → b' ≡ flip b → or_then a' b' ≡ flip (or_then a b)
flip-then Ordering.lt b a' b' h k = rw h refl
flip-then Ordering.eq b a' b' h k = rw h k
flip-then Ordering.gt b a' b' h k = rw h refl

then_chain :
    (a b c a' b' c' : Ordering)
    → (is_gt a ≡ false → is_gt b ≡ false → c ≡ or_then a b)
    → (is_gt a' ≡ false → is_gt b' ≡ false → c' ≡ or_then a' b')
    → is_gt (or_then a a') ≡ false
    → is_gt (or_then b b') ≡ false
    → or_then c c' ≡ or_then (or_then a a') (or_then b b')
then_chain Ordering.lt Ordering.lt c a' b' c' h h' p q = rw (h refl refl) refl
then_chain Ordering.lt Ordering.eq c a' b' c' h h' p q = rw (h refl refl) refl
then_chain Ordering.lt Ordering.gt c a' b' c' h h' p q = absurd (true≢false q)
then_chain Ordering.eq Ordering.lt c Ordering.lt b' c' h h' p q = rw (h refl refl) refl
then_chain Ordering.eq Ordering.lt c Ordering.eq b' c' h h' p q = rw (h refl refl) refl
then_chain Ordering.eq Ordering.lt c Ordering.gt b' c' h h' p q = absurd (true≢false p)
then_chain Ordering.eq Ordering.eq c a' b' c' h h' p q = rw (h refl refl) (h' p q)
then_chain Ordering.eq Ordering.gt c a' b' c' h h' p q = absurd (true≢false q)
then_chain Ordering.gt b c a' b' c' h h' p q = absurd (true≢false p)

-- One comparison, and where it answers "equal" another.
pub then-IsOrder :
    {A : Type 0} {f g : A → A → Ordering}
    → IsOrder f
    → IsOrder g
    → IsOrder (λ (x y : A). or_then (f x y) (g x y))
then-IsOrder {A} {f} {g} p q = record {
  swap = λ x y. flip-then (f x y) (g x y) (f y x) (g y x) (p.swap x y) (q.swap x y);
  chain = λ x y z.
      then_chain (f x y) (f y z) (f x z) (g x y) (g y z) (g x z) (p.chain x y z) (q.chain x y z);
}

numbers_swap : (m n : ℕ) → compare n m ≡ flip (compare m n)
numbers_swap m n = ground arith

numbers_chain :
    (k m n : ℕ)
    → is_gt (compare k m) ≡ false
    → is_gt (compare m n) ≡ false
    → compare k n ≡ or_then (compare k m) (compare m n)
numbers_chain k m n h j = ground arith

pub numbers-IsOrder : {A : Type 0} (key : A → ℕ) → IsOrder (λ (x y : A). compare (key x) (key y))
numbers-IsOrder key = record {
  swap = λ x y. numbers_swap (key x) (key y);
  chain = λ x y z. numbers_chain (key x) (key y) (key z);
}

descending_chain :
    (k m n : ℕ)
    → is_gt (compare m k) ≡ false
    → is_gt (compare n m) ≡ false
    → compare n k ≡ or_then (compare m k) (compare n m)
descending_chain k m n h j = ground arith

pub descending-IsOrder : {A : Type 0} (key : A → ℕ) → IsOrder (λ (x y : A). compare (key y) (key x))
descending-IsOrder key = record {
  swap = λ x y. numbers_swap (key y) (key x);
  chain = λ x y z. descending_chain (key x) (key y) (key z);
}

text_swap : (s t : String) → compare_text t s ≡ flip (compare_text s t)
text_swap String.[] String.[] = rw text_clauses.nil-nil refl
text_swap String.[] (String.◌∷◌ d t) =
    rw (text_clauses.nil-cons d t, text_clauses.cons-nil d t) refl
text_swap (String.◌∷◌ c s) String.[] =
    rw (text_clauses.nil-cons c s, text_clauses.cons-nil c s) refl
text_swap (String.◌∷◌ c s) (String.◌∷◌ d t) =
    rw (text_clauses.cons-cons c d s t, text_clauses.cons-cons d c t s)
      (flip-then (compare (code c) (code d)) (compare_text s t) _ _ (numbers_swap (code c) (code d))
        (text_swap s t))

text_chain :
    (s t u : String)
    → is_gt (compare_text s t) ≡ false
    → is_gt (compare_text t u) ≡ false
    → compare_text s u ≡ or_then (compare_text s t) (compare_text t u)
text_chain String.[] String.[] u h k = refl
text_chain String.[] (String.◌∷◌ d t) String.[] h k =
    absurd (true≢false (ap is_gt (sym (text_clauses.cons-nil d t)) ∙ k))
text_chain String.[] (String.◌∷◌ d t) (String.◌∷◌ e u) h k =
    rw (text_clauses.nil-cons d t, text_clauses.nil-cons e u) refl
text_chain (String.◌∷◌ c s) String.[] u h k =
    absurd (true≢false (ap is_gt (sym (text_clauses.cons-nil c s)) ∙ h))
text_chain (String.◌∷◌ c s) (String.◌∷◌ d t) String.[] h k =
    absurd (true≢false (ap is_gt (sym (text_clauses.cons-nil d t)) ∙ k))
text_chain (String.◌∷◌ c s) (String.◌∷◌ d t) (String.◌∷◌ e u) h k =
    rw
      (
        text_clauses.cons-cons c d s t,
        text_clauses.cons-cons d e t u,
        text_clauses.cons-cons c e s u,
      )
      (then_chain (compare (code c) (code d)) (compare (code d) (code e))
        (compare (code c) (code e)) (compare_text s t) (compare_text t u) (compare_text s u)
        (numbers_chain (code c) (code d) (code e)) (text_chain s t u)
        (ap is_gt (sym (text_clauses.cons-cons c d s t)) ∙ h)
        (ap is_gt (sym (text_clauses.cons-cons d e t u)) ∙ k))

pub texts-IsOrder :
    {A : Type 0} (key : A → String) → IsOrder (λ (x y : A). compare_text (key x) (key y))
texts-IsOrder key = record {
  swap = λ x y. text_swap (key x) (key y);
  chain = λ x y z. text_chain (key x) (key y) (key z);
}

pub queue_compare-IsOrder : IsOrder queue_compare
unfolding queue_compare
queue_compare-IsOrder = then-IsOrder (descending-IsOrder (λ (r : SearchRow). r.priority)) (
    then-IsOrder (descending-IsOrder (λ (r : SearchRow). r.instance_rank)) (
      then-IsOrder (numbers-IsOrder (λ (r : SearchRow). r.queue_order)) (
        then-IsOrder (numbers-IsOrder (λ (r : SearchRow). r.next_attempt_at)) (
          then-IsOrder (texts-IsOrder (λ (r : SearchRow). r.sort_title)) (
            then-IsOrder (numbers-IsOrder (λ (r : SearchRow). r.sort_series)) (
              then-IsOrder (numbers-IsOrder (λ (r : SearchRow). r.sort_season)) (
                then-IsOrder (numbers-IsOrder (λ (r : SearchRow). r.sort_episode)) (
                  then-IsOrder (numbers-IsOrder (λ (r : SearchRow). r.media_id))
                    (texts-IsOrder (λ (r : SearchRow). r.language))))))))))

-- What is not after something, nor that after a third, is not after the third.
pub not_after_trans :
    (a b c : Ordering)
    → (is_gt a ≡ false → is_gt b ≡ false → c ≡ or_then a b)
    → is_gt a ≡ false
    → is_gt b ≡ false
    → is_gt c ≡ false
not_after_trans Ordering.lt b c h p q = rw (h p q) refl
not_after_trans Ordering.eq b c h p q = rw (h p q) q
not_after_trans Ordering.gt b c h p q = absurd (true≢false p)
