-- ===== src/Models.antt =====
-- custom_components/skywatch/models.py
use ha_skywatch.Prelude.{Bool, Option, Text}
use ha_skywatch.Prelude.Int.{ℤ}
use ha_skywatch.Python.{Float}
use ha_skywatch.Time.{DateTime}

pub record Entry : Type 0 where
  pub flight_id : Text
  pub entry_time : DateTime
  pub callsign : Option Text
  pub flight_number : Option Text
  pub aircraft_code : Option Text
  pub aircraft_model : Option Text

pub record Sighting : Type 0 where
  pub exit_time : DateTime
  pub entry_time : Option DateTime
  pub flight_number : Option Text
  pub callsign : Option Text
  pub airline : Option Text
  pub airline_iata : Option Text
  pub aircraft_code : Option Text
  pub aircraft_model : Option Text
  pub registration : Option Text
  pub origin_iata : Option Text
  pub origin_city : Option Text
  pub destination_iata : Option Text
  pub destination_city : Option Text
  pub altitude_ft : Option ℤ
  pub ground_speed_kt : Option ℤ
  pub closest_km : Option Float
  pub aircraft_photo : Option Text
  pub tracked_by_device : Option Text
  pub heading : Option ℤ
  pub vertical_speed : Option ℤ
  pub on_ground : Option Bool

-- The two values of `Movement.direction`.
pub data Direction : Type 0 where
  landed took_off : Direction

pub record Movement : Type 0 where
  pub event_time : DateTime
  pub direction : Direction
  pub airport_iata : Option Text
  pub flight_number : Option Text
  pub callsign : Option Text
  pub airline : Option Text
  pub airline_iata : Option Text
  pub aircraft_code : Option Text
  pub aircraft_model : Option Text
  pub registration : Option Text
  pub origin_iata : Option Text
  pub destination_iata : Option Text
  pub aircraft_photo : Option Text
