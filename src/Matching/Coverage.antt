-- ===== src/Matching/Coverage.antt =====
-- internal/match/score.go: which episodes a pack, a release name or a candidate speaks of.
use subsyncd.Common.Text.{String, str_eq}
use subsyncd.Matching.Types.{
  is_episode_range, Media, MediaKind, PackInfo, Release, movie, episode, pack_season, unspecified,
  pack_range, other_scope,
}
use subsyncd.Common.{
  Option, Bool, ◌==◌, ℕ, if◌then◌else◌, not, false, ◌||◌, ◌&&◌, List, some, any, none,
}
use subsyncd.Common.Int.{ℤ, pos_part, ltb_ℤ, leb_ℤ, pos, neg_part}

-- `==` on integers, and the test for the unknown value.
abbrev pub eq_ℤ : ℤ → ℤ → Bool
eq_ℤ a b = pos_part a == pos_part b && neg_part a == neg_part b

abbrev pub known : ℤ → Bool
known n = not (eq_ℤ n (pos 0))

abbrev pub positive : ℤ → Bool
positive n = ltb_ℤ (pos 0) n

abbrev pub kind_code : MediaKind → ℕ
kind_code movie = 0
kind_code episode = 1
kind_code unspecified = 2

abbrev pub same_kind : MediaKind → MediaKind → Bool
same_kind a b = kind_code a == kind_code b

abbrev pub present : String → Bool
present s = not (str_eq s "")

abbrev pub bool_points : Bool → ℕ → ℕ
bool_points value points = if value then points else 0

-- `standard` and `absolute` of the range pack, as `coversTarget` asks them.
unfoldable pub covers_range : Media → PackInfo → Bool
covers_range m p =
    (not (known p.season) || eq_ℤ p.season m.season)
      && positive p.episode_from
      && leb_ℤ p.episode_from m.episode
      && leb_ℤ m.episode_end p.episode_to
    || positive m.absolute_episode_end
      && positive p.absolute_episode_from
      && leb_ℤ p.absolute_episode_from m.absolute_episode
      && leb_ℤ m.absolute_episode_end p.absolute_episode_to

unfoldable pub pack_covers : Media → Option PackInfo → Bool
unfolding covers_range
pack_covers m none = false
pack_covers m (some p) = elim p.scope [ pack_range ↦ covers_range m p | _ ↦ false ]

abbrev pub max_ℤ : ℤ → ℤ → ℤ
max_ℤ a b = if leb_ℤ a b then b else a

unfoldable pub release_covers : Media → Release → Bool
release_covers m r =
    eq_ℤ r.season m.season
      && positive r.episode
      && leb_ℤ r.episode m.episode
      && leb_ℤ m.episode_end (max_ℤ r.episode_end r.episode)
    || positive m.absolute_episode_end
      && positive r.absolute_episode
      && leb_ℤ r.absolute_episode m.absolute_episode
      && leb_ℤ m.absolute_episode_end r.absolute_episode_end

-- `coversTarget`
unfoldable pub covers_target : Media → Bool → Option PackInfo → List Release → Bool
unfolding pack_covers release_covers
covers_target m exact_hash pack releases =
    exact_hash || pack_covers m pack || any (release_covers m) releases

-- `episodeInTarget`
unfoldable pub episode_in_target : Media → ℤ → Bool
unfolding is_episode_range
episode_in_target m e =
    if is_episode_range m then leb_ℤ m.episode e && leb_ℤ e m.episode_end else eq_ℤ e m.episode

-- `packContains`
unfoldable pub pack_contains : Option PackInfo → Media → Bool
pack_contains none m = false
pack_contains (some p) m = elim p.scope [
  | pack_season ↦ eq_ℤ p.season m.season
  | pack_range ↦
      (not (known p.season) || eq_ℤ p.season m.season)
        && leb_ℤ p.episode_from m.episode
        && leb_ℤ m.episode p.episode_to
      || positive m.absolute_episode
        && leb_ℤ p.absolute_episode_from m.absolute_episode
        && leb_ℤ m.absolute_episode p.absolute_episode_to
  | other_scope ↦ false
]

-- `packSeasonConflicts`
unfoldable pub pack_season_conflicts : Option PackInfo → Media → Bool
pack_season_conflicts none m = false
pack_season_conflicts (some p) m =
    if not (known p.season) || eq_ℤ p.season m.season
    then false
    else not (elim p.scope [
      | pack_range ↦
          positive m.absolute_episode
          && leb_ℤ p.absolute_episode_from m.absolute_episode
          && leb_ℤ m.absolute_episode p.absolute_episode_to
      | _ ↦ false
    ])

unfoldable pub release_has_episode : Media → Release → Bool
release_has_episode m r =
    let last = if known r.episode_end then r.episode_end else r.episode in
    eq_ℤ r.season m.season
    && positive r.episode
    && leb_ℤ r.episode m.episode
    && leb_ℤ m.episode last
