-- ===== src/Storage/Queries/Groups/Stats.antt =====
-- `query_stats` and `query_top_routes`.
use ha_skywatch.Prelude.{
  ℕ, ◌-◌, ◌*◌, ◌/◌, ◌≤◌, ◌<◌, ◌≡◌, ◌↔◌, refl, Bool, true, ◌||◌, ◌&&◌, Option, List, [], ◌∷◌, arith,
  Text, length, take, filter, count_if, ltb, leb, map, text_eq, text_eq_iff, text_lt, text_le,
  if◌then◌else◌, is_empty,
}
use ha_skywatch.Prelude.Sort.{sort_by}
use ha_skywatch.Time.{Instant, day, end_of_time, sqlite_text, compare-sqlite-utc_text}
use ha_skywatch.Python.{Zone, or_empty}
use ha_skywatch.Storage.Schema.{SightingRow, Database}
use ha_skywatch.Storage.Queries.Counts.{query_today, ExitTimes}
use ha_skywatch.Storage.Queries.Groups.{groups, top_groups}

-- The values of a column that are neither NULL nor ''.
unfoldable pub column_keys : (SightingRow → Option Text) → List SightingRow → List Text
column_keys column [] = []
column_keys column (r ∷ rows) =
    let rest = column_keys column rows in
    if is_empty (or_empty (column r)) then rest else or_empty (column r) ∷ rest

pub record RareGroup : Type 0 where
  pub aircraft_model : Text
  pub n : ℕ
  pub last_seen : Text

-- MAX(exit_time) over the rows of a model
unfoldable pub last_seen_of : Text → List SightingRow → Text
last_seen_of model [] = []
last_seen_of model (r ∷ rows) =
    let rest = last_seen_of model rows in
    if text_eq (or_empty r.aircraft_model) model && text_lt rest r.exit_time
    then r.exit_time
    else rest

-- ORDER BY n ASC, last_seen DESC
abbrev pub rarer : RareGroup → RareGroup → Bool
rarer a b = ltb a.n b.n || ((leb a.n b.n && leb b.n a.n) && text_lt b.last_seen a.last_seen)

unfoldable pub rare_groups : List SightingRow → List RareGroup
unfolding column_keys groups last_seen_of
rare_groups rows = take 10 (
    sort_by rarer (
      map (λ g. record { aircraft_model = g.0; n = g.1; last_seen = last_seen_of g.0 rows })
        (filter (λ g. leb g.1 2)
          (groups text_eq text_lt (column_keys (λ r. r.aircraft_model) rows)))))

-- SELECT COUNT(*) … WHERE exit_time >= datetime('now','-7 days')
unfoldable pub count_week : Instant → List SightingRow → ℕ
count_week now = count_if (λ r. text_le (sqlite_text (now - 7 * day)) r.exit_time)

pub record Stats : Type 0 where
  pub count : ℕ
  pub today : ℕ
  pub this_week : ℕ
  pub top_airlines : List (Text × ℕ)
  pub top_aircraft : List (Text × ℕ)
  pub rare_aircraft : List RareGroup

unfoldable pub query_stats : Zone → Instant → Database → Stats
unfolding count_week rare_groups column_keys
query_stats tz now d = record {
  count = length d.sightings;
  today = query_today tz now d;
  this_week = count_week now d.sightings;
  top_airlines = top_groups text_eq text_lt 10 (column_keys (λ r. r.airline) d.sightings);
  top_aircraft = top_groups text_eq text_lt 10 (column_keys (λ r. r.aircraft_model) d.sightings);
  rare_aircraft = rare_groups d.sightings;
}

abbrev pub Route : Type 0
Route = Text × Text

abbrev pub same_route : Route → Route → Bool
same_route a b = text_eq a.0 b.0 && text_eq a.1 b.1

abbrev pub route_before : Route → Route → Bool
route_before a b = text_lt a.0 b.0 || (text_eq a.0 b.0 && text_lt a.1 b.1)

unfoldable pub route_keys : List SightingRow → List Route
route_keys [] = []
route_keys (r ∷ rows) =
    let rest = route_keys rows in
    if is_empty (or_empty r.origin_iata) || is_empty (or_empty r.destination_iata)
    then rest
    else (or_empty r.origin_iata, or_empty r.destination_iata) ∷ rest

pub record TopRoutes : Type 0 where
  pub count : ℕ
  pub routes : List (Route × ℕ)

unfoldable pub query_top_routes : Database → TopRoutes
unfolding route_keys
query_top_routes d =
    let rows = top_groups same_route route_before 10 (route_keys d.sightings) in
    record { count = length rows; routes = rows }

-- The weekly count compares a text with a space for the `T`. Of rows with known exit times it
-- counts those whose UTC date is not before the date seven days ago, whatever their time of day.
pub count_week-times :
    (now : Instant) (rows : List SightingRow) (times : List Instant)
    → now < end_of_time
    → ExitTimes rows times
    → count_week now rows ≡ count_if (λ t. leb ((now - 7 * day) / day) (t / day)) times
unfolding count_week
count_week-times now [] [] h e = refl
count_week-times now [] (t ∷ times) h e = absurd e
count_week-times now (r ∷ rows) [] h e = absurd e
count_week-times now (r ∷ rows) (t ∷ times) h ((same, fits), e) = rw same (
    ground (
      arith,
      compare-sqlite-utc_text (now - 7 * day) t (omega arith) fits,
      count_week-times now rows times h e,
    ))

pub same_route_iff : (a b : Route) → (same_route a b ≡ true) ↔ (a ≡ b)
same_route_iff a b = ground (arith, text_eq_iff a.0 b.0, text_eq_iff a.1 b.1)

-- What a weekly count that respected the time of day would count is counted.
pub week-le-count_week :
    (now : Instant) (rows : List SightingRow) (times : List Instant)
    → now < end_of_time
    → ExitTimes rows times
    → count_if (λ t. leb (now - 7 * day) t) times ≤ count_week now rows
week-le-count_week now rows times h e = rw (count_week-times now rows times h e) (fewer times)
  where
    fewer :
        (times : List Instant)
        → count_if (λ t. leb (now - 7 * day) t) times
          ≤ count_if (λ t. leb ((now - 7 * day) / day) (t / day)) times
    fewer [] = omega arith
    fewer (t ∷ times) = ground (arith, fewer times)
