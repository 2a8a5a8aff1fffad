-- ===== src/Storage/Repository.antt =====
-- storage/repository.py: the write operations and the units of work made of them.
pub mod Spec
pub mod Invariant
pub mod Lookup
pub mod Expiry
pub mod Dwell
pub mod Paths
use ha_skywatch.Prelude.{
  ℕ, zero, suc, ◌+◌, ◌-◌, ◌*◌, Bool, true, false, not, ◌&&◌, ◌||◌, Option, none, some, List, [],
  ◌∷◌, ◌++◌, Text, codes, text_lt, text_eq, is_empty, filter, count_if, any, if◌then◌else◌,
}
use ha_skywatch.Prelude.Int.{ℤ, pos}
use ha_skywatch.Prelude.Sort.{sort_by}
use ha_skywatch.Time.{Instant, DateTime, naive, aware, utc_text, hour, minute}
use ha_skywatch.Python.{Float, finite, inf, neg_inf, nan, Value, null, str, Platform}
use ha_skywatch.Python.Result.{Result, ok, err, Error, key_error, Exec, pure, ◌>>=◌, ◌>>◌}
use ha_skywatch.Models.{Entry, Sighting, Movement, Direction, landed, took_off}
use ha_skywatch.Normalizers.{normalize_photo_url, replace_z}
use ha_skywatch.Storage.Schema.{SightingRow, EntryRow, MovementRow, PositionRow, Database}
use ha_skywatch.Storage.Connection.{Conn, select, modify, commit}
use ha_skywatch.Storage.Statements.{
  replace_entry, delete_entries_before, find_entry, delete_entry, insert_position,
  delete_positions_before, insert_sighting_row, insert_movement_row, Trails, empty_trails,
  append_point, append_points, select_positions, is_null_real,
}

abbrev pub default_entry_ttl_hours : ℕ
default_entry_ttl_hours = 2

abbrev pub default_trail_retention_minutes : ℕ
default_trail_retention_minutes = 30

-- One argument of `insert_positions`.
pub record Sample : Type 0 where
  pub flight_id : Text
  pub ts : DateTime
  pub lat : Float
  pub lon : Float

abbrev pub photo_value : Option Text → Value
photo_value none = null
photo_value (some s) = str s

abbrev pub real_value : Option Float → Option Float
real_value none = none
real_value (some f) = if is_null_real f then none else some f

abbrev pub int_of_bool : Option Bool → Option ℤ
int_of_bool none = none
int_of_bool (some b) = some (if b then pos 1 else pos 0)

abbrev pub direction_text : Direction → Text
direction_text landed = codes "landed"
direction_text took_off = codes "took_off"

abbrev pub lift : {A : Type 0} → Result A → Exec Conn A
lift r c = (r, c)

unfoldable pub fetch_trails : List Text → Exec Conn Trails
unfolding empty_trails append_points append_point select_positions
fetch_trails [] = pure []
fetch_trails (fid ∷ ids) = do
  rows ← select (select_positions (fid ∷ ids))
  lift (append_points rows (empty_trails (fid ∷ ids)))

module _ (p : Platform) where
  -- `_iso`
  unfoldable pub iso : DateTime → Text
  iso (naive w) = utc_text (p.local_to_utc w)
  iso (aware t) = utc_text t

  unfoldable pub entry_row : Entry → EntryRow
  entry_row entry = record {
    flight_id = entry.flight_id;
    entry_time = iso entry.entry_time;
    callsign = entry.callsign;
    flight_number = entry.flight_number;
    aircraft_code = entry.aircraft_code;
    aircraft_model = entry.aircraft_model;
  }

  unfoldable pub insert_entry : Entry → Exec Conn (Unit {0})
  insert_entry entry = modify (replace_entry (entry_row entry))

  unfoldable pub prune_stale_entries : Instant → ℕ → Exec Conn ℕ
  prune_stale_entries now ttl_hours =
      modify (delete_entries_before (utc_text (now - ttl_hours * hour)))

  -- The parse at the end of `take_entry_time`, which leaves a naive time naive.
  unfoldable pub parse_entry_time : Text → Option DateTime
  parse_entry_time text = p.from_isoformat (replace_z text)

  -- What `take_entry_time` does with the selected row.
  unfoldable pub take_row : Text → Option Text → Exec Conn (Option DateTime)
  take_row flight_id none = pure none
  take_row flight_id (some text) = do modify (delete_entry flight_id); pure (parse_entry_time text)

  unfoldable pub take_entry_time : Option Text → Exec Conn (Option DateTime)
  take_entry_time none = pure none
  take_entry_time (some []) = pure none
  take_entry_time (some (c ∷ s)) = do
    row ← select (λ d. find_entry (c ∷ s) d.entries)
    take_row (c ∷ s) row

  unfoldable pub sighting_row : Sighting → ℕ → SightingRow
  sighting_row sighting id = record {
    id = id;
    exit_time = iso sighting.exit_time;
    entry_time = elim sighting.entry_time [ none ↦ none | some t ↦ some (iso t) ];
    flight_number = sighting.flight_number;
    callsign = sighting.callsign;
    airline = sighting.airline;
    airline_iata = sighting.airline_iata;
    aircraft_code = sighting.aircraft_code;
    aircraft_model = sighting.aircraft_model;
    registration = sighting.registration;
    origin_iata = sighting.origin_iata;
    origin_city = sighting.origin_city;
    destination_iata = sighting.destination_iata;
    destination_city = sighting.destination_city;
    altitude_ft = sighting.altitude_ft;
    ground_speed_kt = sighting.ground_speed_kt;
    closest_km = real_value sighting.closest_km;
    aircraft_photo = normalize_photo_url (photo_value sighting.aircraft_photo);
    tracked_by_device = sighting.tracked_by_device;
    heading = sighting.heading;
    vertical_speed = sighting.vertical_speed;
    on_ground = int_of_bool sighting.on_ground;
  }

  unfoldable pub insert_sighting : Sighting → Exec Conn ℕ
  insert_sighting sighting = modify (insert_sighting_row (sighting_row sighting))

  unfoldable pub movement_row : Movement → ℕ → MovementRow
  movement_row movement id = record {
    id = id;
    event_time = iso movement.event_time;
    direction = direction_text movement.direction;
    airport_iata = movement.airport_iata;
    flight_number = movement.flight_number;
    callsign = movement.callsign;
    airline = movement.airline;
    airline_iata = movement.airline_iata;
    aircraft_code = movement.aircraft_code;
    aircraft_model = movement.aircraft_model;
    registration = movement.registration;
    origin_iata = movement.origin_iata;
    destination_iata = movement.destination_iata;
    aircraft_photo = normalize_photo_url (photo_value movement.aircraft_photo);
  }

  unfoldable pub insert_movement : Movement → Exec Conn ℕ
  insert_movement movement = modify (insert_movement_row (movement_row movement))

  unfoldable pub position_row : Sample → PositionRow
  position_row s = record { flight_id = s.flight_id; ts = iso s.ts; lat = s.lat; lon = s.lon }

  -- `executemany`: one statement for each row, and the sum of the row counts.
  unfoldable pub insert_positions : List Sample → Exec Conn ℕ
  insert_positions [] = pure 0
  insert_positions (s ∷ positions) = do
    n ← modify (insert_position (position_row s))
    m ← insert_positions positions
    pure (n + m)

  unfoldable pub prune_old_positions : Instant → ℕ → Exec Conn ℕ
  prune_old_positions now retention_minutes =
      modify (delete_positions_before (utc_text (now - retention_minutes * minute)))

  unfoldable pub record_positions : Instant → List Sample → Exec Conn (Unit {0})
  record_positions now rows = do
    insert_positions rows
    prune_old_positions now default_trail_retention_minutes
    commit

  unfoldable pub record_entry : Instant → Entry → Exec Conn (Unit {0})
  record_entry now entry = do
    insert_entry entry
    prune_stale_entries now default_entry_ttl_hours
    commit

  -- `replace(sighting, entry_time=entry_time)` where there is one.
  unfoldable pub join_entry_time : Option DateTime → Sighting → Sighting
  join_entry_time none sighting = sighting
  join_entry_time (some t) sighting = record sighting { entry_time = some t }

  unfoldable pub record_exit : Option Text → Sighting → Exec Conn ℕ
  record_exit flight_id sighting = do
    entry_time ← take_entry_time flight_id
    row_id ← insert_sighting (join_entry_time entry_time sighting)
    commit
    pure row_id

  unfoldable pub record_movement : Movement → Exec Conn ℕ
  record_movement movement = do row_id ← insert_movement movement; commit; pure row_id
