-- ===== src/Tests/Queries.antt =====
-- The dashboard queries on a database with one sighting.
use Prim.Native.Nat.{Ordering}
use ha_skywatch.Prelude.{
  ◌+◌, ◌*◌, ◌≤◌, ◌≡◌, refl, false, none, some, [], ◌∷◌, codes, arith, length, count_if, min, upper,
  compare_text, is_empty, get_elem?, upper_char, strip, lstrip, is_space,
}
use ha_skywatch.Prelude.Int.{pos}
use ha_skywatch.Time.{Instant, utc_text, minute, hour, day, compare-utc_text}
use ha_skywatch.Classify.{is_military, WatchEntry}
use ha_skywatch.Storage.Repository.{sighting_row, iso}
use ha_skywatch.Storage.Queries.Decorate.{decorate}
use ha_skywatch.Storage.Queries.Counts.{ExitTimes, query_today, query_today-times}
use ha_skywatch.Storage.Queries.Recent.{
  query_recent, newest_first, query_recent_bounds, query_recent_complete,
}
use ha_skywatch.Storage.Queries.Search.{query_search, has_text, query_search-IsFound}
use ha_skywatch.Storage.Queries.Groups.Stats.{
  count_week, same_route, Route, route_before, count_week-times, same_route_iff,
}
use ha_skywatch.Storage.Queries.Groups.{top_groups}
use ha_skywatch.Storage.Queries.Groups.Top.{top_groups_lem}
use ha_skywatch.Storage.Queries.Military.{has_military_code, has_military_code-eq-is_military}
use ha_skywatch.Storage.Queries.Histogram.{query_hour_histogram, query_hour_histogram_lem}
use ha_skywatch.DataBuilder.{watch_of}
use ha_skywatch.DataBuilder.Watching.{is_taken_for, count-watch_of}
use ha_skywatch.Tests.Fixtures.{ten_o_clock, device, utc, one_row, small_db}

abbrev here : Route
here = (codes "LHR", codes "NCE")

abbrev there : Route
there = (codes "NCE", codes "LHR")

abbrev seen : Instant
seen = ten_o_clock + 5 * minute

compare-utc_text_example :
    compare_text (utc_text ten_o_clock) (utc_text (ten_o_clock + 2 * hour)) ≡ Ordering.lt
compare-utc_text_example =
    compare-utc_text ten_o_clock (ten_o_clock + 2 * hour) (omega arith) (omega arith)

one_row-ExitTimes : ExitTimes small_db.sightings (seen ∷ [])
unfolding sighting_row iso
one_row-ExitTimes = ((refl, omega arith), tt)

query_today-times_example : query_today utc (ten_o_clock + 20 * hour) small_db ≡ 0
query_today-times_example =
    query_today-times utc (ten_o_clock + 20 * hour) small_db (seen ∷ [])
      (record { whole = refl; later = λ t h. h; earlier = λ t h. h }) (omega arith)
      one_row-ExitTimes

-- Seen seven days and three hours before, and counted.
count_week-times_example : count_week (seen + 7 * day + 3 * hour) small_db.sightings ≡ 1
count_week-times_example =
    count_week-times (seen + 7 * day + 3 * hour) small_db.sightings (seen ∷ []) (omega arith)
      one_row-ExitTimes

query_recent_bounds_example :
    (query_recent device utc (pos 7) 10 small_db).page
    ≤ (query_recent device utc (pos 7) 10 small_db).total_pages
query_recent_bounds_example = (query_recent_bounds device utc (pos 7) 10 small_db (omega arith)).1

query_recent_complete_example :
    get_elem? (query_recent device utc (pos 1) 10 small_db).sightings 0
    ≡ get_elem? (decorate device utc (newest_first small_db.sightings)) 0
query_recent_complete_example =
    query_recent_complete device utc (pos 1) 10 small_db (omega arith) 0 (omega arith)

query_search-IsFound_example :
    (query_search device utc (codes " air ") 25 small_db).count
    ≡ min 25 (count_if (has_text (codes "air")) small_db.sightings)
unfolding strip lstrip is_space is_empty
query_search-IsFound_example =
    (query_search-IsFound device utc 25 small_db (codes " air ") refl
      (refl, refl, (refl, refl, (refl, refl, tt))) refl).1

top_groups_lem_example :
    length (top_groups same_route route_before 1 (here ∷ there ∷ here ∷ [])) ≤ 1
top_groups_lem_example =
    (top_groups_lem same_route route_before same_route_iff (here ∷ there ∷ here ∷ []) 1).2

has_military_code-eq-is_military_example :
    has_military_code (codes "C17" ∷ codes "A400" ∷ []) one_row
    ≡ is_military one_row.aircraft_code (codes "C17" ∷ codes "A400" ∷ [])
unfolding upper upper_char is_empty
has_military_code-eq-is_military_example =
    has_military_code-eq-is_military (codes "C17" ∷ codes "A400" ∷ []) one_row
      ((refl, refl), ((refl, refl), tt))

query_hour_histogram_lem_example : length (query_hour_histogram device utc small_db).buckets ≡ 24
query_hour_histogram_lem_example = (query_hour_histogram_lem device utc small_db).0

abbrev watched : WatchEntry
watched = record {
  slug = codes "euua";
  label = codes "G-EUUA";
  registration = some (codes "g-euua");
  aircraft_code = none;
  match_blocked = false;
}

count-watch_of_example :
    (watch_of device utc small_db ten_o_clock watched).count
    ≡ count_if (is_taken_for watched) small_db.sightings
unfolding strip lstrip is_space upper upper_char sighting_row
count-watch_of_example =
    count-watch_of device utc small_db ten_o_clock watched (refl, refl) ((λ e. cc), tt)
