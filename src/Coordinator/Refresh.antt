-- ===== src/Coordinator/Refresh.antt =====
-- coordinator.py: the refresh, and the trails that the map asks for. The SELECTs of a refresh are taken not to fail.
use ha_skywatch.Prelude.{
  ℕ, List, [], ◌∷◌, Text, min, max, Option, none, some, length, if◌then◌else◌, ◌≡◌, refl, arith,
}
use ha_skywatch.Prelude.Int.{ℤ, pos_part}
use ha_skywatch.Python.{Float, Platform, Zone}
use ha_skywatch.Python.Result.{Result, ok, err, programming, Exec}
use ha_skywatch.Storage.Connection.{run}
use ha_skywatch.Storage.Statements.{Trails}
use ha_skywatch.Storage.Repository.{fetch_trails}
use ha_skywatch.Storage.Schema.{Database}
use ha_skywatch.Storage.Queries.Recent.{
  query_recent, total_pages_of, clamp_page, default_recent_page_size,
}
use ha_skywatch.DataBuilder.{Clock, Data, build_data}
use ha_skywatch.Coordinator.{World, Config, async_set_page}

-- `async_fetch_trails`: no trails without ids and without a database.
unfoldable pub async_fetch_trails : List Text → Exec World Trails
unfolding run fetch_trails
async_fetch_trails [] w = (ok [], w)
async_fetch_trails (fid ∷ ids) w =
    let o = run (fetch_trails (fid ∷ ids)) w.store in
    if w.has_db then (o.0, record w { store = o.1 }) else (ok [], w)

module _ (p : Platform) (tz : Zone) (cfg : Config) (distance_km : Float) (altitude_ft : ℤ) where
  -- `_build_data`, with the number of flights that `current_flights` gives.
  unfoldable pub data_of : Clock → ℕ → World → Database → Data
  unfolding build_data
  data_of clock in_area w d =
      build_data p tz d clock w.current_page w.current_search cfg.military_codes cfg.watch_list
        distance_km altitude_ft in_area

  -- `_async_update_data`: none stands for the empty `dict` without a database.
  unfoldable pub async_update_data : Clock → ℕ → World → Result (Option Data)
  unfolding data_of
  async_update_data clock in_area w =
      if w.has_db
      then (if w.store.closed
          then err programming
          else ok (some (data_of clock in_area w w.store.conn.working)))
      else ok none

  -- After the page is set, the coordinator keeps the number asked for, at least 1, and a refresh
  -- shows that page, or the last one where there are not so many.
  pub data_of-async_set_page :
      (clock : Clock) (in_area : ℕ) (page : ℤ) (w : World) (d : Database)
      → ((async_set_page page w).current_page ≡ max 1 (pos_part page))
        × ((data_of clock in_area (async_set_page page w) d).recent.page
            ≡ min
                (max 1 (pos_part page))
                (total_pages_of (length d.sightings) default_recent_page_size))
  unfolding data_of async_set_page build_data query_recent clamp_page
  data_of-async_set_page clock in_area page w d =
      (refl, twice (pos_part page) (total_pages_of (length d.sightings) default_recent_page_size))
    where
      twice : (n total : ℕ) → min (max 1 (max 1 n)) total ≡ min (max 1 n) total
      twice n total = omega arith
