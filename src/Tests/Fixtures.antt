-- ===== src/Tests/Fixtures.antt =====
-- Data for the examples: an aircraft seen on 1 June 2025.
use ha_skywatch.Prelude.{
  upper, ◌+◌, ◌*◌, true, false, none, some, [], ◌∷◌, Text, codes, text_eq, if◌then◌else◌, refl,
  arith,
}
use ha_skywatch.Prelude.Int.{pos, negsuc}
use ha_skywatch.Python.{finite, inf, Platform, Zone}
use ha_skywatch.Time.{Instant, aware, minute}
use ha_skywatch.Models.{Entry, Sighting, Movement, landed}
use ha_skywatch.Storage.Schema.{SightingRow, Database, empty_db}
use ha_skywatch.Storage.Connection.{Conn, IsIdle, SerializedConnection}
use ha_skywatch.Storage.Repository.{Sample, sighting_row}
use ha_skywatch.Storage.Repository.Invariant.{IsValid}
use ha_skywatch.Storage.History.{IsSound}

-- 2025-06-01T10:00:00 UTC
abbrev pub ten_o_clock : Instant
ten_o_clock = 63884368800000000

abbrev pub ten_text : Text
ten_text = codes "2025-06-01T10:00:00+00:00"

-- It reads one timestamp and the text of infinity, and takes local time for UTC.
abbrev pub device : Platform
device = record {
  float_of_text = λ s. if text_eq s (codes "inf") then some inf else none;
  float_of_int = λ n. none;
  from_isoformat = λ s. if text_eq s ten_text then some (aware ten_o_clock) else none;
  str_upper = upper;
  local_to_utc = λ w. w;
}

abbrev pub utc : Zone
utc = record { to_wall = λ t. t; from_wall = λ w. w }

abbrev pub an_entry : Entry
an_entry = record {
  flight_id = codes "3a1b";
  entry_time = aware ten_o_clock;
  callsign = some (codes "BAW123");
  flight_number = some (codes "BA123");
  aircraft_code = some (codes "A320");
  aircraft_model = some (codes "Airbus A320");
}

abbrev pub a_sighting : Sighting
a_sighting = record {
  exit_time = aware (ten_o_clock + 5 * minute);
  entry_time = none;
  flight_number = some (codes "BA123");
  callsign = some (codes "BAW123");
  airline = some (codes "British Airways");
  airline_iata = some (codes "BA");
  aircraft_code = some (codes "A320");
  aircraft_model = some (codes "Airbus A320");
  registration = some (codes "G-EUUA");
  origin_iata = some (codes "LHR");
  origin_city = some (codes "London");
  destination_iata = some (codes "NCE");
  destination_city = some (codes "Nice");
  altitude_ft = some (pos 4200);
  ground_speed_kt = some (pos 250);
  closest_km = some (finite (pos 1));
  aircraft_photo = some (codes "https:https://a.b/c");
  tracked_by_device = none;
  heading = some (pos 90);
  vertical_speed = some (negsuc 63);
  on_ground = some false;
}

abbrev pub a_movement : Movement
a_movement = record {
  event_time = aware ten_o_clock;
  direction = landed;
  airport_iata = some (codes "LHR");
  flight_number = some (codes "BA123");
  callsign = some (codes "BAW123");
  airline = none;
  airline_iata = none;
  aircraft_code = some (codes "A320");
  aircraft_model = none;
  registration = some (codes "G-EUUA");
  origin_iata = none;
  destination_iata = some (codes "LHR");
  aircraft_photo = none;
}

abbrev pub a_sample : Sample
a_sample = record {
  flight_id = codes "3a1b";
  ts = aware ten_o_clock;
  lat = finite (pos 51);
  lon = finite (pos 0);
}

-- An open connection to a new database, of which no statement will fail.
abbrev pub new_conn : Conn
new_conn = record { committed = empty_db; working = empty_db; in_transaction = false; faults = [] }

-- The third statement will fail.
abbrev pub failing_conn : Conn
failing_conn = record new_conn { faults = false ∷ false ∷ true ∷ [] }

abbrev pub failing : SerializedConnection
failing = record { conn = failing_conn; closed = false }

pub failing-IsIdle : IsIdle failing_conn
failing-IsIdle = record { no_transaction = refl; in_step = refl }

pub empty_db-IsValid : IsValid empty_db
empty_db-IsValid = record {
  entries_unique = tt;
  positions_unique = tt;
  sightings_grow = omega arith;
  movements_grow = omega arith;
}

pub failing-IsSound : IsSound failing
failing-IsSound = record { still_open = refl; idle = failing-IsIdle; valid = empty_db-IsValid }

-- The database with one sighting, and with two positions.
abbrev pub one_row : SightingRow
one_row = sighting_row device a_sighting 1

abbrev pub small_db : Database
small_db = record empty_db {
  sightings = one_row ∷ [];
  sightings_seq = 1;
  flight_positions =
      record {
        flight_id = codes "3a1b";
        ts = ten_text;
        lat = finite (pos 51);
        lon = finite (pos 0);
      }
      ∷ [];
}
