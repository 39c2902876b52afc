-- ===== src/Matching/Score/Rejections.antt =====
-- What a candidate that may be used has been checked for.
use mathlib.Core.List.{cons≢nil}
use subsyncd.Common.{
  Bool, List, ◌++◌, ◌≡◌, if◌then◌else◌, ◌∷◌, [], false, ℕ, true, ◌||◌, ◌&&◌, not, refl, any, arith,
  sym, ◌∙◌,
}
use subsyncd.Matching.Types.{
  TextOps, Media, Candidate, unspecified, is_episode_range, Release, Score, ExternalIds,
}
use subsyncd.Common.Float.{Floats}
use subsyncd.Common.Text.{String}
use subsyncd.Matching.Score.{
  eligible, identity_rejections, evaluate, candidate_releases, contributions, language_rejections,
  kind_rejections, forced_rejections, numbering_rejections, range_rejections, edition_rejections,
  disc_rejections,
}
use subsyncd.Matching.Signals.{equivalent_language, external_conflicts, same_text}
use subsyncd.Matching.Coverage.{same_kind, covers_target, present, known, eq_ℤ}
use subsyncd.Matching.Score.Bounds.{score_of_lem}

append-eq-nil {ℓ} : {A : Type ℓ} (xs ys : List A) → xs ++ ys ≡ [] → (xs ≡ []) × (ys ≡ [])
append-eq-nil [] ys h = (refl, h)
append-eq-nil (x ∷ xs) ys h = absurd (cons≢nil h)

-- A part of the reasons is empty only where its test fails.
no_reason : (b : Bool) (reason : String) → (if b then reason ∷ [] else []) ≡ [] → b ≡ false
no_reason true reason h = absurd (cons≢nil h)
no_reason false reason h = refl

both_negated : (a b : Bool) → (not a && not b) ≡ false → (a || b) ≡ true
both_negated a b h = ground arith

or_negated : (a b : Bool) → (not a && b) ≡ false → (a || not b) ≡ true
or_negated a b h = ground arith

last_negated :
    (a b c d : Bool) → (a && not b && not c && not d) ≡ false → (not a || b || c || d) ≡ true
last_negated a b c d h = ground arith

both_known : (a b c : Bool) → (a && b && not c) ≡ false → (not (a && b) || c) ≡ true
both_known a b c h = ground arith

eligible-no_reasons :
    (s : Score) (minimum : ℕ) → eligible s minimum ≡ true → s.rejected_reasons ≡ []
unfolding eligible
eligible-no_reasons s minimum h = go s.rejected_reasons refl
  where
    go : (reasons : List String) → s.rejected_reasons ≡ reasons → s.rejected_reasons ≡ []
    go [] e = e
    go (r ∷ rs) e = absurd (ground arith)

module _ (tx : TextOps) (fl : Floats) where
  open fl use {F}

  -- The identity of a candidate agrees with what was asked for.
  pub record IsFor (m : Media) (c : Candidate F) (requested : String) (selected : Bool)
      : Type 0 where
    pub language : equivalent_language tx c.language requested ≡ true
    pub kind : (same_kind c.kind unspecified || same_kind c.kind m.kind) ≡ true
    pub full : c.forced ≡ false
    pub imdb :
        (not (present m.external_ids.imdb && present c.external_ids.imdb)
          || same_text tx m.external_ids.imdb c.external_ids.imdb)
        ≡ true
    pub tmdb :
        (not (known m.external_ids.tmdb && known c.external_ids.tmdb)
          || eq_ℤ m.external_ids.tmdb c.external_ids.tmdb)
        ≡ true
    pub tvdb :
        (not (known m.external_ids.tvdb && known c.external_ids.tvdb)
          || eq_ℤ m.external_ids.tvdb c.external_ids.tvdb)
        ≡ true
    pub range :
        (not (is_episode_range m)
          || c.exact_hash
          || selected
          || covers_target m c.exact_hash c.pack (candidate_releases tx fl c))
        ≡ true
    pub whole :
        (c.exact_hash
          || not (any (λ (r : Release). tx.is_multi_disc r.raw) (candidate_releases tx fl c)))
        ≡ true

  -- Where no reason is left, each part of them is empty.
  parts_nil :
      (a b c d e f g h : List String)
      → a ++ b ++ c ++ d ++ e ++ f ++ g ++ h ≡ []
      → (a ≡ []) × (b ≡ []) × (c ≡ []) × (d ≡ []) × (f ≡ []) × (h ≡ [])
  parts_nil a b c d e f g h p =
      let (p₆, disc) = append-eq-nil (a ++ b ++ c ++ d ++ e ++ f ++ g) h p in
      let (p₅, edition) = append-eq-nil (a ++ b ++ c ++ d ++ e ++ f) g p₆ in
      let (p₄, range) = append-eq-nil (a ++ b ++ c ++ d ++ e) f p₅ in
      let (p₃, numbering) = append-eq-nil (a ++ b ++ c ++ d) e p₄ in
      let (p₂, identity) = append-eq-nil (a ++ b ++ c) d p₃ in
      let (p₁, forced) = append-eq-nil (a ++ b) c p₂ in
      let (language, kind) = append-eq-nil a b p₁ in (language, kind, forced, identity, range, disc)

  language_nil :
      (c : Candidate F) (requested : String)
      → language_rejections tx fl c requested ≡ []
      → equivalent_language tx c.language requested ≡ true
  unfolding language_rejections
  language_nil c requested h =
      let n : not (equivalent_language tx c.language requested) ≡ false = no_reason _ _ h in
      ground arith

  kind_nil :
      (m : Media) (c : Candidate F)
      → kind_rejections tx fl m c ≡ []
      → (same_kind c.kind unspecified || same_kind c.kind m.kind) ≡ true
  unfolding kind_rejections
  kind_nil m c h =
      both_negated (same_kind c.kind unspecified) (same_kind c.kind m.kind) (no_reason _ _ h)

  identity_nil :
      (m c : ExternalIds)
      → external_conflicts tx m c ≡ []
      → ((not (present m.imdb && present c.imdb) || same_text tx m.imdb c.imdb) ≡ true)
        × ((not (known m.tmdb && known c.tmdb) || eq_ℤ m.tmdb c.tmdb) ≡ true)
        × ((not (known m.tvdb && known c.tvdb) || eq_ℤ m.tvdb c.tvdb) ≡ true)
  unfolding external_conflicts
  identity_nil m c h =
      let (first, tvdb) = append-eq-nil _ _ h in
      let (imdb, tmdb) = append-eq-nil _ _ first in
      (
        both_known (present m.imdb) (present c.imdb) (same_text tx m.imdb c.imdb)
            (no_reason _ _ imdb),
        both_known (known m.tmdb) (known c.tmdb) (eq_ℤ m.tmdb c.tmdb) (no_reason _ _ tmdb),
        both_known (known m.tvdb) (known c.tvdb) (eq_ℤ m.tvdb c.tvdb) (no_reason _ _ tvdb),
      )

  forced_nil : (c : Candidate F) → forced_rejections tx fl c ≡ [] → c.forced ≡ false
  unfolding forced_rejections
  forced_nil c h = no_reason _ _ h

  range_nil :
      (m : Media) (c : Candidate F) (releases : List Release) (selected : Bool)
      → range_rejections tx fl m c releases selected ≡ []
      → (not (is_episode_range m)
          || c.exact_hash
          || selected
          || covers_target m c.exact_hash c.pack releases)
        ≡ true
  unfolding range_rejections
  range_nil m c releases selected h =
      last_negated (is_episode_range m) c.exact_hash selected
        (covers_target m c.exact_hash c.pack releases) (no_reason _ _ h)

  disc_nil :
      (c : Candidate F) (releases : List Release)
      → disc_rejections tx fl c releases ≡ []
      → (c.exact_hash || not (any (λ (r : Release). tx.is_multi_disc r.raw) releases)) ≡ true
  unfolding disc_rejections
  disc_nil c releases h =
      or_negated c.exact_hash (any (λ (r : Release). tx.is_multi_disc r.raw) releases)
        (no_reason _ _ h)

  rejections-IsFor :
      (m : Media) (c : Candidate F) (requested : String) (selected : Bool)
      → identity_rejections tx fl m c requested (candidate_releases tx fl c) selected ≡ []
      → IsFor m c requested selected
  unfolding identity_rejections
  rejections-IsFor m c requested selected h =
      let releases = candidate_releases tx fl c in
      let (language, kind, forced, identity, range, disc) =
        parts_nil (language_rejections tx fl c requested) (kind_rejections tx fl m c)
          (forced_rejections tx fl c) (external_conflicts tx m.external_ids c.external_ids)
          (numbering_rejections tx fl m c selected) (range_rejections tx fl m c releases selected)
          (edition_rejections tx fl m c releases) (disc_rejections tx fl c releases) h in
      let (imdb, tmdb, tvdb) = identity_nil m.external_ids c.external_ids identity in
      record {
        language = language_nil c requested language;
        kind = kind_nil m c kind;
        full = forced_nil c forced;
        imdb = imdb;
        tmdb = tmdb;
        tvdb = tvdb;
        range = range_nil m c releases selected range;
        whole = disc_nil c releases disc;
      }

  -- A candidate is eligible only if its language is the one requested, its kind is unspecified or
  -- the file's, its IMDb, TMDB and TVDB ids are each the file's where both are known, it is no
  -- forced-only subtitle, it covers a file of several episodes, and it is not one disc of several;
  -- an exact hash is excused from the last two alone, and a selected pack member from the coverage.
  pub eligible-IsFor :
      (m : Media) (c : Candidate F) (requested : String) (selected : Bool) (minimum : ℕ)
      → eligible (evaluate tx fl m c requested selected) minimum ≡ true
      → IsFor m c requested selected
  unfolding evaluate
  eligible-IsFor m c requested selected minimum h =
      let releases = candidate_releases tx fl c in
      let reasons = identity_rejections tx fl m c requested releases selected in
      rejections-IsFor m c requested selected (
        sym (score_of_lem tx fl c reasons (contributions tx fl m c releases selected)).1
        ∙ eligible-no_reasons (evaluate tx fl m c requested selected) minimum h)
