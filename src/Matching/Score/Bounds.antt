-- ===== src/Matching/Score/Bounds.antt =====
-- What every score satisfies, on each way through `evaluate`.
use subsyncd.Matching.Types.{TextOps, Media, Candidate, Contribution}
use subsyncd.Common.Float.{Floats}
use subsyncd.Matching.Score.{
  evaluate, sum_points, score_of, identity_rejections, candidate_releases, contributions,
}
use subsyncd.Common.Text.{String}
use subsyncd.Common.{Bool, ◌≡◌, min, [], true, List, arith, ◌∷◌, refl, is_empty, ◌||◌, ◌==◌, not}

module _ (tx : TextOps) (fl : Floats) where
  open fl use {F}

  pub score_of_lem :
      (c : Candidate F) (reasons : List String) (points : List Contribution)
      → let s = score_of tx fl c reasons points in
        (s.total ≡ min (sum_points tx fl s.contributions) 100)
        × (s.rejected_reasons ≡ reasons)
        × ((is_empty s.rejected_reasons || s.total == 0) ≡ true)
        × ((not (is_empty s.rejected_reasons) || not c.exact_hash || s.total == 100) ≡ true)
  unfolding score_of
  score_of_lem c [] points = (ground arith, ground arith, ground arith, ground arith)
  score_of_lem c (r ∷ rs) points = (refl, refl, refl, refl)

  -- On every way through, the total is the sum of the contributions, capped at 100; a rejected
  -- candidate scores nothing; and an exact hash that is not rejected scores 100.
  pub evaluate_total :
      (m : Media) (c : Candidate F) (requested : String) (selected : Bool)
      → let s = evaluate tx fl m c requested selected in
        (s.total ≡ min (sum_points tx fl s.contributions) 100)
        × ((is_empty s.rejected_reasons || s.total == 0) ≡ true)
        × ((not (is_empty s.rejected_reasons) || not c.exact_hash || s.total == 100) ≡ true)
  unfolding evaluate
  evaluate_total m c requested selected =
      let (sum, same, none_, full) =
        score_of_lem c
          (identity_rejections tx fl m c requested (candidate_releases tx fl c) selected)
          (contributions tx fl m c (candidate_releases tx fl c) selected) in
      (sum, none_, full)
