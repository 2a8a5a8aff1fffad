-- ===== src/Storage/Schema.antt =====
-- storage/schema.py: the four tables of schema v1, as lists of rows in rowid order.
use ha_skywatch.Prelude.{ℕ, Option, List, [], Text}
use ha_skywatch.Prelude.Int.{ℤ}
use ha_skywatch.Python.{Float}

pub record SightingRow : Type 0 where
  pub id : ℕ
  pub exit_time : Text
  pub entry_time : Option Text
  pub flight_number : Option Text
  pub callsign : Option Text
  pub airline : Option Text
  pub airline_iata : Option Text
  pub aircraft_code : Option Text
  pub aircraft_model : Option Text
  pub registration : Option Text
  pub origin_iata : Option Text
  pub origin_city : Option Text
  pub destination_iata : Option Text
  pub destination_city : Option Text
  pub altitude_ft : Option ℤ
  pub ground_speed_kt : Option ℤ
  pub closest_km : Option Float
  pub aircraft_photo : Option Text
  pub tracked_by_device : Option Text
  pub heading : Option ℤ
  pub vertical_speed : Option ℤ
  pub on_ground : Option ℤ

pub record EntryRow : Type 0 where
  pub flight_id : Text
  pub entry_time : Text
  pub callsign : Option Text
  pub flight_number : Option Text
  pub aircraft_code : Option Text
  pub aircraft_model : Option Text

pub record MovementRow : Type 0 where
  pub id : ℕ
  pub event_time : Text
  pub direction : Text
  pub airport_iata : Option Text
  pub flight_number : Option Text
  pub callsign : Option Text
  pub airline : Option Text
  pub airline_iata : Option Text
  pub aircraft_code : Option Text
  pub aircraft_model : Option Text
  pub registration : Option Text
  pub origin_iata : Option Text
  pub destination_iata : Option Text
  pub aircraft_photo : Option Text

pub record PositionRow : Type 0 where
  pub flight_id : Text
  pub ts : Text
  pub lat : Float
  pub lon : Float

-- The two sequence numbers are AUTOINCREMENT's: the greatest id ever given.
pub record Database : Type 0 where
  pub sightings : List SightingRow
  pub sightings_seq : ℕ
  pub entries : List EntryRow
  pub airport_movements : List MovementRow
  pub movements_seq : ℕ
  pub flight_positions : List PositionRow

abbrev pub empty_db : Database
empty_db = record {
  sightings = [];
  sightings_seq = 0;
  entries = [];
  airport_movements = [];
  movements_seq = 0;
  flight_positions = [];
}
