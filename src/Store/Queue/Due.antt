-- ===== src/Store/Queue/Due.antt =====
-- The due searches and their order (internal/store/repository.go, `LeaseDueSearchesExcept`).
use Prim.Native.Nat.{Ordering, compare}
use Prim.Native.String.{then as or_then, compare as compare_text}
use subsyncd.Common.{
  Option, ℕ, List, Bool, ◌∷◌, none, [], false, take, ◌&&◌, true, some, if◌then◌else◌, keep, not,
  any, ◌||◌, leb,
}
use subsyncd.Common.Text.{String, str_eq}
use subsyncd.Store.Queue.Resume.{Repository}
use subsyncd.Store.Queue.Rows.{SearchRow, MediaRow, Media, lease_free}
use subsyncd.Common.Time.{Instant}

-- `RouteKey` with the columns it is compared with.
pub record PausedRoute : Type 0 where
  pub language : String
  pub is_episode : Bool
  pub ranges_only : Bool

unfoldable pub on_route : SearchRow → MediaRow → PausedRoute → Bool
on_route r m route =
    str_eq r.language route.language
    && (if route.is_episode then m.is_episode else not m.is_episode)
    && (not route.ranges_only || m.multi_episode)

abbrev pub in_scope : Option (List String × List String) → SearchRow → MediaRow → Bool
in_scope scope r m = elim scope [
  | none ↦ true
  | some (instances, languages) ↦
      any (str_eq m.instance_name) instances && any (str_eq r.language) languages
]

-- The WHERE of the selection of due searches.
unfoldable pub is_due : Repository → Media → Instant → List PausedRoute → SearchRow → Bool
unfolding on_route
is_due repo media now paused r = elim (media r.media_id) [
  | none ↦ false
  | some m ↦
      not m.deleted
      && r.pending
      && leb r.next_attempt_at now
      && lease_free now r
      && in_scope repo.search_scope r m
      && not (any (on_route r m) paused)
]

abbrev descending : ℕ → ℕ → Ordering
descending m n = compare n m

-- Its ORDER BY.
unfoldable pub queue_compare : SearchRow → SearchRow → Ordering
queue_compare r s = or_then (descending r.priority s.priority) (
    or_then (descending r.instance_rank s.instance_rank) (
      or_then (compare r.queue_order s.queue_order) (
        or_then (compare r.next_attempt_at s.next_attempt_at) (
          or_then (compare_text r.sort_title s.sort_title) (
            or_then (compare r.sort_series s.sort_series) (
              or_then (compare r.sort_season s.sort_season) (
                or_then (compare r.sort_episode s.sort_episode) (
                  or_then (compare r.media_id s.media_id)
                    (compare_text r.language s.language)))))))))

unfoldable pub insert_row : SearchRow → List SearchRow → List SearchRow
unfolding queue_compare
insert_row r [] = r ∷ []
insert_row r (s ∷ rows) =
    let rest = insert_row r rows in
    elim (queue_compare r s) [ Ordering.gt ↦ s ∷ rest | _ ↦ r ∷ s ∷ rows ]

unfoldable pub sort_rows : List SearchRow → List SearchRow
unfolding insert_row
sort_rows [] = []
sort_rows (r ∷ rows) = insert_row r (sort_rows rows)

-- The rows that are selected, in order.
unfoldable pub due_searches :
    Repository → Media → Instant → ℕ → List PausedRoute → List SearchRow → List SearchRow
unfolding is_due sort_rows
due_searches repo media now limit paused rows =
    take limit (sort_rows (keep (is_due repo media now paused) rows))
