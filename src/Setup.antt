-- ===== src/Setup.antt =====
-- __init__.py: the settings of an entry, its setup and its unloading, with the registration of the
-- services of services.py. A `ZoneInfo` that does not exist raises a kind of KeyError.
pub mod Laws
pub mod Unloading
use ha_skywatch.Prelude.{
  Bool, true, false, not, Option, none, some, List, [], ◌∷◌, ◌++◌, Text, codes, text_eq, any,
  filter, is_empty, ◌==◌, length, if◌then◌else◌, ◌*◌, ◌^◌,
}
use ha_skywatch.Prelude.Int.{ℤ, pos}
use ha_skywatch.Python.{Float, finite, Zone, or_none}
use ha_skywatch.Python.Result.{Result, ok, err, key_error, Exec, pure, ◌>>=◌, ◌>>◌, continue}
use ha_skywatch.Classify.{WatchItem, WatchEntry, from_dict}
use ha_skywatch.Const.{helo_codes, military_codes}
use ha_skywatch.Coordinator.{World, Config, async_unload}
use ha_skywatch.Coordinator.Setup.{Surroundings, async_setup}
use ha_skywatch.Services.{Coordinators, get_coordinator}

-- The keys of `entry.data` or of `entry.options` that the setup reads; none where a key is missing.
pub record Options : Type 0 where
  pub timezone : Option Text
  pub helo_codes : Option (List Text)
  pub military_codes : Option (List Text)
  pub watch_list : Option (List WatchItem)
  pub overhead_distance_km : Option Float
  pub overhead_altitude_ft : Option ℤ

abbrev or_first : {A : Type 0} → Option A → Option A → Option A
or_first first none = first
or_first first (some x) = some x

-- `{**entry.data, **entry.options}`
unfoldable pub merged : Options → Options → Options
merged data' options = record {
  timezone = or_first data'.timezone options.timezone;
  helo_codes = or_first data'.helo_codes options.helo_codes;
  military_codes = or_first data'.military_codes options.military_codes;
  watch_list = or_first data'.watch_list options.watch_list;
  overhead_distance_km = or_first data'.overhead_distance_km options.overhead_distance_km;
  overhead_altitude_ft = or_first data'.overhead_altitude_ft options.overhead_altitude_ft;
}

-- What the coordinator is created with.
pub record Settings : Type 0 where
  pub tz : Zone
  pub config : Config
  pub overhead_distance_km : Float
  pub overhead_altitude_ft : ℤ

-- `cfg.get(CONF_TIMEZONE) or hass.config.time_zone or "UTC"`
unfoldable pub tz_name : Option Text → Option Text → Text
unfolding or_none
tz_name timezone time_zone = elim (or_none timezone) [
  | some name ↦ name
  | none ↦ elim (or_none time_zone) [ some name ↦ name | none ↦ codes "UTC" ]
]

-- `tuple(WatchEntry.from_dict(item) for item in …)`
unfoldable pub watch_entries : {S : Type 0} → List WatchItem → Exec S (List WatchEntry)
unfolding from_dict
watch_entries [] = pure []
watch_entries (item ∷ items) = do
  entry ← (λ s. (from_dict item, s))
  entries ← watch_entries items
  pure (entry ∷ entries)

abbrev default_overhead_distance_km : Float
default_overhead_distance_km = finite (pos (5 * 2 ^ 1074))

abbrev default_overhead_altitude_ft : ℤ
default_overhead_altitude_ft = pos 10000

abbrev pub or_default : {A : Type 0} → A → Option A → A
or_default default none = default
or_default default (some x) = x

abbrev pub zone_of : {S : Type 0} → Option Zone → Exec S Zone
zone_of none s = (err key_error, s)
zone_of (some zone) s = (ok zone, s)

abbrev pub settings_of : Options → Zone → List WatchEntry → Settings
unfolding helo_codes military_codes
settings_of cfg tz watch_list = record {
  tz = tz;
  config = record {
    helo_codes = helo_codes cfg.helo_codes;
    military_codes = military_codes cfg.military_codes;
    watch_list = watch_list;
  };
  overhead_distance_km = or_default default_overhead_distance_km cfg.overhead_distance_km;
  overhead_altitude_ft = or_default default_overhead_altitude_ft cfg.overhead_altitude_ft;
}

abbrev pub read_settings : {S : Type 0} → Options → Option Zone → Exec S Settings
unfolding watch_entries
read_settings cfg zone = do
  tz ← zone_of zone
  watch_list ← watch_entries (or_default [] cfg.watch_list)
  pure (settings_of cfg tz watch_list)

-- The part of `async_setup_entry` in front of the coordinator; `zone_info` finds a time zone.
unfoldable pub settings :
    {S : Type 0} → (Text → Option Zone) → Option Text → Options → Exec S Settings
unfolding tz_name watch_entries helo_codes military_codes
settings zone_info time_zone cfg = read_settings cfg (zone_info (tz_name cfg.timezone time_zone))

-- `hass.data[DOMAIN]`, the coordinators that it does not hold but whose connection or jobs are
-- still there, and the names of the services of Skywatch.
pub record Hass : Type 0 where
  pub data' : Coordinators
  pub apart : List World
  pub services : List Text

-- `hass.data[DOMAIN][entry_id] = coordinator`
unfoldable pub put_coordinator : Text → World → Coordinators → Coordinators
put_coordinator entry_id w [] = (entry_id, w) ∷ []
put_coordinator entry_id w ((key, v) ∷ coordinators) =
    let rest = put_coordinator entry_id w coordinators in
    if text_eq key entry_id then (key, w) ∷ coordinators else (key, v) ∷ rest

-- What `hass.data[DOMAIN].pop(entry_id)` leaves.
unfoldable pub pop_coordinator : Text → Coordinators → Coordinators
pop_coordinator entry_id [] = []
pop_coordinator entry_id ((key, v) ∷ coordinators) =
    let rest = pop_coordinator entry_id coordinators in
    if text_eq key entry_id then coordinators else (key, v) ∷ rest

abbrev pub service_names : List Text
service_names = codes "import_legacy_db" ∷ codes "set_page" ∷ codes "set_search_term" ∷ []

-- `hass.services.async_register` for each name
unfoldable pub register_services : List Text → List Text → List Text
register_services [] services = services
register_services (name ∷ names) services =
    register_services names
      (if any (text_eq name) services then services else services ++ (name ∷ []))

-- `async_unregister_services`: `hass.services.async_remove` for each name
unfoldable pub unregister_services : List Text → List Text → List Text
unregister_services [] services = services
unregister_services (name ∷ names) services =
    unregister_services names (filter (λ s. not (text_eq name s)) services)

-- `await coordinator.async_setup()` and the line after it
unfoldable pub keep_coordinator : Text → Result (Unit {0}) × World → Exec Hass (Unit {0})
unfolding put_coordinator
keep_coordinator entry_id (ok tt, w) hass =
    (ok tt, record hass { data' = put_coordinator entry_id w hass.data' })
keep_coordinator entry_id (err e, w) hass = (err e, record hass { apart = w ∷ hass.apart })

-- The services are registered where the entry is the only one.
unfoldable pub register_if_first : List Text → Exec Hass (Unit {0})
unfolding register_services
register_if_first entries hass = (
  ok tt,
  record hass {
    services =
        if length entries == 1
        then register_services service_names hass.services
        else hass.services;
  },
)

-- How Home Assistant answers when the platforms are set up, and when the views are registered.
pub record Answers : Type 0 where
  pub forwarded : Result (Unit {0})
  pub views : Result (Unit {0})

-- `async_forward_entry_setups`
abbrev forward : Answers → Exec Hass (Unit {0})
forward answers hass = (answers.forwarded, hass)

-- `async_register_http_views`, where the entry is the only one
abbrev register_views : Answers → List Text → Exec Hass (Unit {0})
register_views answers entries hass = (if length entries == 1 then answers.views else ok tt, hass)

-- The part from `coordinator.async_setup()` on.
abbrev pub set_up :
    Answers → Text → List Text → Result (Unit {0}) × World → Settings → Exec Hass Settings
unfolding keep_coordinator register_if_first
set_up answers entry_id entries outcome cfg = do
  keep_coordinator entry_id outcome
  forward answers
  register_if_first entries
  register_views answers entries
  pure cfg

-- `async_setup_entry`, for the coordinator that the constructor gives; what it returns is what that
-- one was created with. What the platforms and the views change is no part of the state.
unfoldable pub async_setup_entry :
    (Text → Option Zone)
    → Option Text
    → Text
    → List Text
    → Options
    → Options
    → Surroundings
    → Answers
    → World
    → Exec Hass Settings
unfolding merged settings async_setup keep_coordinator register_if_first
async_setup_entry zone_info time_zone entry_id entries data' options at answers coordinator =
    settings zone_info time_zone (merged data' options)
    >>= set_up answers entry_id entries (async_setup at coordinator)

-- What follows where the platforms are unloaded, with the coordinator of the entry.
unfoldable pub drop_coordinator : Text → List Text → Option World → Exec Hass Bool
unfolding pop_coordinator async_unload unregister_services
drop_coordinator entry_id entries none hass = (err key_error, hass)
drop_coordinator entry_id entries (some w) hass = (
  ok true,
  record {
    data' = pop_coordinator entry_id hass.data';
    apart = async_unload w ∷ hass.apart;
    services =
        if length entries == 0
        then unregister_services service_names hass.services
        else hass.services;
  },
)

-- `async_unload_entry`, given the entries of Skywatch and whether the platforms were unloaded.
unfoldable pub async_unload_entry : Text → List Text → Bool → Exec Hass Bool
unfolding get_coordinator drop_coordinator
async_unload_entry entry_id entries false hass = (ok false, hass)
async_unload_entry entry_id entries true hass =
    drop_coordinator entry_id entries (get_coordinator entry_id hass.data') hass
