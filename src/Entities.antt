-- ===== src/Entities.antt =====
-- The entities of custom_components/skywatch (sensor.py, binary_sensor.py, number.py, text.py,
-- switch.py, button.py): the states that they show, and what they pass to the coordinator.
pub mod Laws
use ha_skywatch.Prelude.{
  codes, text_eq, ◌||◌, ℕ, Bool, true, false, Option, none, some, List, [], ◌∷◌, Text, any, ltb,
  length, if◌then◌else◌,
}
use ha_skywatch.Prelude.Int.{ℤ}
use ha_skywatch.Python.{Float, finite, inf, neg_inf, nan, truncate, or_none}
use ha_skywatch.Python.Result.{Result, ok, err, overflow, value_error}
use ha_skywatch.Classify.{WatchEntry, is_helicopter}
use ha_skywatch.Storage.Queries.Watch.{WatchResult}
use ha_skywatch.DataBuilder.{Data, get_watch}
use ha_skywatch.Coordinator.{World, Config, async_set_page, async_set_search_term}

-- The sensors of `SENSORS`, by their keys, except `flights_in_area`.
pub data SensorKey : Type 0 where
  log_today log_this_week active_last_1h active_last_24h log_recent log_search log_stats : SensorKey
  log_top_routes log_overhead log_hour_histogram military_sightings movements_today : SensorKey

-- `value_fn` of a sensor's description.
unfoldable pub value_fn : SensorKey → Data → ℕ
value_fn log_today d = d.today
value_fn log_this_week d = d.stats.this_week
value_fn active_last_1h d = d.active_1h
value_fn active_last_24h d = d.active_24h
value_fn log_recent d = d.recent.count
value_fn log_search d = d.search.count
value_fn log_stats d = d.stats.count
value_fn log_top_routes d = d.top_routes.count
value_fn log_overhead d = d.overhead.count
value_fn log_hour_histogram d = d.hour_histogram.count
value_fn military_sightings d = d.military.count
value_fn movements_today d = d.movements_today.count

-- What `coordinator.data` may be: None before the first refresh, an empty `dict` after a refresh
-- that found the database closed, or the built data.
pub data CoordinatorData : Type 0 where
  no_data : CoordinatorData
  empty : CoordinatorData
  built : Data → CoordinatorData

-- `SkywatchSensor.native_value`
unfoldable pub native_value : SensorKey → CoordinatorData → Option ℕ
unfolding value_fn
native_value key no_data = none
native_value key empty = some 0
native_value key (built d) = some (value_fn key d)

abbrev count_of : Option WatchResult → ℕ
count_of none = 0
count_of (some r) = r.count

-- `SkywatchWatchSensor.native_value`
unfoldable pub watch_value : WatchEntry → CoordinatorData → ℕ
unfolding get_watch
watch_value watch no_data = 0
watch_value watch empty = 0
watch_value watch (built d) = count_of (get_watch watch.slug d.watches)

-- The keys that the binary sensors read of a flight of `source.current_flights()`.
pub record SeenFlight : Type 0 where
  pub aircraft_code : Option Text
  pub callsign : Option Text

-- `SkywatchFlightsInAreaSensor.native_value`
abbrev pub flights_in_area : List SeenFlight → ℕ
flights_in_area = length

-- `SkywatchHasAircraftBinarySensor.is_on`
unfoldable pub has_aircraft : List SeenFlight → Bool
has_aircraft flights = ltb 0 (length flights)

module _ (cfg : Config) where
  abbrev pub is_helo : SeenFlight → Bool
  is_helo f = is_helicopter f.aircraft_code cfg.helo_codes

  -- `SkywatchHelicopterOverheadBinarySensor.is_on`
  unfoldable pub helicopter_overhead : List SeenFlight → Bool
  helicopter_overhead flights = any is_helo flights

  abbrev pub cons_callsign : Option Text → List Text → List Text
  cons_callsign none rest = rest
  cons_callsign (some c) rest = c ∷ rest

  -- Its attribute `helicopters`: the callsigns that are no empty text.
  unfoldable pub helicopters : List SeenFlight → List Text
  unfolding or_none
  helicopters [] = []
  helicopters (f ∷ flights) =
      let rest = helicopters flights in
      if is_helo f then cons_callsign (or_none f.callsign) rest else rest

-- `SkywatchLogPageNumber.async_set_native_value`: `int(value)` raises on an infinity and on nan.
unfoldable pub set_native_value : Float → World → Result World
unfolding async_set_page
set_native_value (finite z) w = ok (async_set_page (truncate z) w)
set_native_value nan w = err value_error
set_native_value inf w = err overflow
set_native_value neg_inf w = err overflow

-- `SkywatchSearchTermText.async_set_value`
unfoldable pub set_value : Text → World → World
unfolding async_set_search_term
set_value value w = async_set_search_term value w

-- `SkywatchAlertsEnabledSwitch`: the state after `async_added_to_hass`, given the last state.
unfoldable pub restored : Option Text → Bool
restored none = true
restored (some state) =
    if text_eq state (codes "on") || text_eq state (codes "off")
    then text_eq state (codes "on")
    else true

-- The state that the switch writes, which is what the next start restores.
unfoldable pub switch_state : Bool → Text
switch_state is_on = if is_on then codes "on" else codes "off"

-- `SkywatchClearSearchButton.async_press`
unfoldable pub async_press : World → World
unfolding async_set_search_term
async_press w = async_set_search_term [] w
