-- ===== src/Packs/MovieVersions/Choices.antt =====
-- What the selection of a film's versions may give.
use mathlib.Core.Bool.{true≢false}
use subsyncd.Packs.MovieVersions.{
  insert_member, Names, sort_members, choose, unique_members, prefer_where, Member, selected,
  Selection, refused, with_rule, as_single, as_version, select_movie_alternatives, versions,
  tagged_as, not_other,
}
use subsyncd.Common.Text.{String}
use subsyncd.Common.{
  List, Bool, any, ◌≡◌, length, suc, ◌∷◌, ◌≤◌, false, map, arith, not, [], ◌||◌, any-keep-false,
  leb, ap, refl, true, inl, ℕ, if◌then◌else◌, ◌≢◌, sym, ◌∙◌, ◌⊎◌, inr, tests, ==_iff, ◌&&◌, ltb,
  ◌==◌, is_empty, ◌<◌,
}

-- A test of the file alone, as the rule that selected it is written later.
abbrev pub of_file : (String → String → Bool) → Member → Bool
of_file p m = p m.safe_name m.checksum

module _ (p : String → String → Bool) where
  any-prefer_where :
      (q : Member → Bool) (ms : List Member)
      → any (of_file p) ms ≡ false
      → any (of_file p) (prefer_where q ms) ≡ false
  unfolding prefer_where
  any-prefer_where q ms h = ground (arith, any-keep-false (of_file p) q ms h)

  any-unique_members :
      (checksums : List String) (ms : List Member)
      → any (of_file p) ms ≡ false
      → any (of_file p) (unique_members checksums ms) ≡ false
  unfolding unique_members
  any-unique_members checksums [] h = h
  any-unique_members checksums (m ∷ ms) h =
      ground
        (arith, any-unique_members checksums ms, any-unique_members (m.checksum ∷ checksums) ms)

  any-insert_member :
      (le : String → String → Bool) (m : Member) (ms : List Member)
      → any (of_file p) (insert_member le m ms) ≡ any (of_file p) (m ∷ ms)
  unfolding insert_member
  any-insert_member le m [] = refl
  any-insert_member le m (x ∷ ms) = ground (arith, any-insert_member le m ms)

  any-sort_members :
      (le : String → String → Bool) (ms : List Member)
      → any (of_file p) (sort_members le ms) ≡ any (of_file p) ms
  unfolding sort_members
  any-sort_members le [] = refl
  any-sort_members le (m ∷ ms) =
      ground (arith, any-insert_member le m (sort_members le ms), any-sort_members le ms)

  any-map-with_rule :
      (rule evidence : String) (ms : List Member)
      → any (of_file p) (map (with_rule rule evidence) ms) ≡ any (of_file p) ms
  any-map-with_rule rule evidence [] = refl
  any-map-with_rule rule evidence (m ∷ ms) = ground (arith, any-map-with_rule rule evidence ms)

length-insert_member :
    (le : String → String → Bool) (m : Member) (ms : List Member)
    → length (insert_member le m ms) ≡ suc (length ms)
unfolding insert_member
length-insert_member le m [] = refl
length-insert_member le m (x ∷ ms) = ground (arith, length-insert_member le m ms)

length-sort_members :
    (le : String → String → Bool) (ms : List Member) → length (sort_members le ms) ≡ length ms
unfolding sort_members
length-sort_members le [] = refl
length-sort_members le (m ∷ ms) =
    omega (arith, length-insert_member le m (sort_members le ms), length-sort_members le ms)

length-map-with_rule :
    (rule evidence : String) (ms : List Member)
    → length (map (with_rule rule evidence) ms) ≡ length ms
length-map-with_rule rule evidence [] = refl
length-map-with_rule rule evidence (m ∷ ms) = omega (arith, length-map-with_rule rule evidence ms)

abbrev members_of : Selection → List Member
members_of (selected ms) = ms
members_of (refused reason n) = []

abbrev is_selected : Selection → Bool
is_selected (selected ms) = true
is_selected (refused reason n) = false

never_refused : (reason : String) (n : ℕ) (ms : List Member) → refused reason n ≢ selected ms
never_refused reason n ms h = true≢false (sym (ap is_selected h))

-- A choice by four tests, where it selects.
chosen_if :
    (disc several one few : Bool) (xs ys ms : List Member) (reason : String) (n : ℕ)
    → (if disc
        then refused reason n
        else if several
        then refused reason n
        else if one
        then selected xs
        else if few
        then selected ys
        else refused reason n)
      ≡ selected ms
    → (disc ≡ false) × (several ≡ false) × (((one ≡ true) × (xs ≡ ms)) ⊎ ((few ≡ true) × (ys ≡ ms)))
chosen_if true several one few xs ys ms reason n h = absurd (never_refused reason n ms h)
chosen_if false true one few xs ys ms reason n h = absurd (never_refused reason n ms h)
chosen_if false false true few xs ys ms reason n h = (refl, refl, inl (refl, ap members_of h))
chosen_if false false false true xs ys ms reason n h = (refl, refl, inr (refl, ap members_of h))
chosen_if false false false false xs ys ms reason n h = absurd (never_refused reason n ms h)

module _ (names : Names) where
  -- What may be selected of the versions that are left.
  pub record IsChoice (exact_hash : Bool) (unique ms : List Member) : Type 0 where
    pub at_most_three : length ms ≤ 3
    pub one_for_hash : (not exact_hash || leb (length ms) 1) ≡ true
    pub whole : any (λ m. names.is_multi_disc m.safe_name) unique ≡ false
    pub as_many : length ms ≡ length unique
    pub same_files : (p : String → String → Bool) → any (of_file p) ms ≡ any (of_file p) unique

  choose-IsChoice :
      (exact_hash : Bool) (unique ms : List Member)
      → choose names exact_hash unique ≡ selected ms
      → IsChoice exact_hash unique ms
  unfolding choose
  choose-IsChoice exact_hash unique ms h =
      let n = length unique in
      let sorted = sort_members names.before_or_same unique in
      let (disc, several, chosen) =
        chosen_if (any (λ m. names.is_multi_disc m.safe_name) unique) (exact_hash && ltb 1 n)
          (n == 1) (leb n 3) (map as_single unique) (map as_version sorted) ms "single_movie" n h in
      elim chosen [
        | inl (one, e) ↦
            let same = ap length (sym e) ∙ length-map-with_rule _ _ unique in
            record {
              at_most_three = omega (tests, same, (==_iff (length unique) 1).0 one);
              one_for_hash = ground (arith, same, several);
              whole = disc;
              as_many = same;
              same_files = λ p. ap (any (of_file p)) (sym e) ∙ any-map-with_rule p _ _ unique;
            }
        | inr (few, e) ↦
            let same =
              ap length (sym e)
              ∙ length-map-with_rule _ _ sorted
              ∙ length-sort_members names.before_or_same unique in
            record {
              at_most_three = omega (tests, same, few);
              one_for_hash = ground (arith, same, several);
              whole = disc;
              as_many = same;
              same_files = λ p.
                  ap (any (of_file p)) (sym e)
                  ∙ any-map-with_rule p _ _ sorted
                  ∙ any-sort_members p names.before_or_same unique;
            }
      ]

is_empty-prefer_where :
    (q : Member → Bool) (ms : List Member)
    → is_empty ms ≡ false
    → is_empty (prefer_where q ms) ≡ false
unfolding prefer_where
is_empty-prefer_where q ms h = ground arith

is_empty-unique_members :
    (ms : List Member) → is_empty ms ≡ false → is_empty (unique_members [] ms) ≡ false
unfolding unique_members
is_empty-unique_members [] h = h
is_empty-unique_members (m ∷ ms) h = ground arith

length-is_empty : (ms : List Member) → is_empty ms ≡ false → 0 < length ms
length-is_empty [] h = absurd (ground arith)
length-is_empty (m ∷ ms) h = omega arith

refusal_first :
    (b : Bool) (reason : String) (n : ℕ) (s : Selection) (ms : List Member)
    → (if b then refused reason n else s) ≡ selected ms
    → (b ≡ false) × (s ≡ selected ms)
refusal_first true reason n s ms h = absurd (never_refused reason n ms h)
refusal_first false reason n s ms h = (refl, h)

-- A selection gives from one to three files, one alone where the candidate matches the file's hash,
-- none of them one disc of several, and each a file of the archive: a test that fails on every file
-- of it fails on all that are selected.
pub select_movie_alternatives_lem :
    (names : Names) (members ms : List Member) (language : String)
    (forced exact_hash want_forced : Bool) (p : String → String → Bool)
    → select_movie_alternatives names members language forced exact_hash want_forced ≡ selected ms
    → any (of_file p) members ≡ false
    → (0 < length ms)
      × (length ms ≤ 3)
      × ((not exact_hash || leb (length ms) 1) ≡ true)
      × (any (λ m. names.is_multi_disc m.safe_name) ms ≡ false)
      × (any (of_file p) ms ≡ false)
unfolding select_movie_alternatives versions
select_movie_alternatives_lem names members ms language forced exact_hash want_forced p h a =
    let unique = versions names language members in
    let first = prefer_where (λ m. not (names.is_extra m.safe_name)) members in
    let second = prefer_where (tagged_as names language) first in
    let third = prefer_where (not_other names language) second in
    let (permitted, chosen) =
      refusal_first (forced && not want_forced || is_empty members) "forced_policy" 0
        (choose names exact_hash unique) ms h in
    let c = choose-IsChoice names exact_hash unique ms chosen in
    let some_member : is_empty members ≡ false = ground arith in
    let left : is_empty unique ≡ false = is_empty-unique_members third (
      is_empty-prefer_where _ second
        (is_empty-prefer_where _ first (is_empty-prefer_where _ members some_member))) in
    let from =
      any-unique_members p [] third (
        any-prefer_where p _ second
          (any-prefer_where p _ first (any-prefer_where p _ members a))) in
    (
      omega (arith, length-is_empty unique left, c.as_many),
      c.at_most_three,
      c.one_for_hash,
      c.same_files (λ name checksum. names.is_multi_disc name) ∙ c.whole,
      c.same_files p ∙ from,
    )
