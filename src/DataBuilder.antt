-- ===== src/DataBuilder.antt =====
-- custom_components/skywatch/data_builder.py. Each query reads the clock for itself.
pub mod Laws
pub mod Watching
use ha_skywatch.Prelude.{
  ℕ, ◌+◌, Bool, true, false, Option, none, some, List, [], ◌∷◌, Text, is_empty, text_eq,
  if◌then◌else◌, any, map,
}
use ha_skywatch.Prelude.Int.{ℤ, pos}
use ha_skywatch.Python.{Float, Platform, Zone, or_empty}
use ha_skywatch.Time.{Instant}
use ha_skywatch.Classify.{WatchEntry}
use ha_skywatch.Storage.Schema.{Database}
use ha_skywatch.Storage.Queries.Counts.{query_today, query_active_1h, query_active_24h}
use ha_skywatch.Storage.Queries.Groups.Stats.{Stats, query_stats, TopRoutes, query_top_routes}
use ha_skywatch.Storage.Queries.Histogram.{Histogram, query_hour_histogram}
use ha_skywatch.Storage.Queries.Overhead.{Overhead, query_overhead, default_overhead_limit}
use ha_skywatch.Storage.Queries.Movements.{
  Movements, query_movements_today, default_movements_limit,
}
use ha_skywatch.Storage.Queries.Military.{Counted, query_military, default_military_limit}
use ha_skywatch.Storage.Queries.Recent.{Page, query_recent, default_recent_page_size}
use ha_skywatch.Storage.Queries.Search.{SearchResult, query_search, default_search_limit}
use ha_skywatch.Storage.Queries.Watch.{WatchResult, query_watch_aircraft}

-- The instants at which the queries call `datetime.now`.
pub record Clock : Type 0 where
  pub today : Instant
  pub stats : Instant
  pub movements : Instant
  pub active_1h : Instant
  pub active_24h : Instant
  pub watch : WatchEntry → Instant

-- The `dict` by slug, in the order of insertion.
abbrev pub Watches : Type 0
Watches = List (Text × WatchResult)

pub record Data : Type 0 where
  pub today : ℕ
  pub stats : Stats
  pub recent : Page
  pub overhead : Overhead
  pub military : Counted
  pub top_routes : TopRoutes
  pub hour_histogram : Histogram
  pub movements_today : Movements
  pub active_1h : ℕ
  pub active_24h : ℕ
  pub search : SearchResult
  pub watches : Watches

-- `watches[slug] = result`
unfoldable pub set_watch : Text → WatchResult → Watches → Watches
set_watch slug result [] = (slug, result) ∷ []
set_watch slug result ((key, old) ∷ watches) =
    let rest = set_watch slug result watches in
    if text_eq key slug then (key, result) ∷ watches else (key, old) ∷ rest

-- `watches.get(slug)`
unfoldable pub get_watch : Text → Watches → Option WatchResult
get_watch slug [] = none
get_watch slug ((key, result) ∷ watches) =
    let rest = get_watch slug watches in if text_eq key slug then some result else rest

abbrev empty_search : SearchResult
empty_search = record { count = 0; sightings = []; term = [] }

module _ (p : Platform) (tz : Zone) (d : Database) where
  unfoldable pub watch_of : Instant → WatchEntry → WatchResult
  watch_of now entry =
      query_watch_aircraft p (or_empty entry.registration) tz
        (if entry.match_blocked then entry.aircraft_code else none) now d

  -- The loop over the watch list.
  unfoldable pub add_watches : (WatchEntry → Instant) → List WatchEntry → Watches → Watches
  unfolding set_watch watch_of
  add_watches clock [] watches = watches
  add_watches clock (entry ∷ entries) watches =
      add_watches clock entries (set_watch entry.slug (watch_of (clock entry) entry) watches)

  unfoldable pub build_data : Clock → ℕ → Text → List Text → List WatchEntry → Float → ℤ → ℕ → Data
  unfolding add_watches
  build_data clock current_page current_search military_codes watch_list distance_km altitude_ft
        currently_in_area_count =
      record {
        today = query_today tz clock.today d;
        stats = query_stats tz clock.stats d;
        recent = query_recent p tz (pos current_page) default_recent_page_size d;
        overhead = query_overhead distance_km altitude_ft default_overhead_limit d;
        military = query_military p tz military_codes default_military_limit d;
        top_routes = query_top_routes d;
        hour_histogram = query_hour_histogram p tz d;
        movements_today = query_movements_today p tz clock.movements default_movements_limit d;
        active_1h = query_active_1h clock.active_1h d + currently_in_area_count;
        active_24h = query_active_24h clock.active_24h d + currently_in_area_count;
        search =
            if is_empty current_search
            then empty_search
            else query_search p tz current_search default_search_limit d;
        watches = add_watches clock.watch watch_list [];
      }
