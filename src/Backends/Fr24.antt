-- ===== src/Backends/Fr24.antt =====
-- backends/fr24.py: from the payloads of the Flightradar24 events to the integration's models. The
-- texts of a payload are as its module comment documents them, a text or none; its numbers and its
-- photo are any value.
pub mod Laws
pub mod Bus
use ha_skywatch.Prelude.{Bool, true, false, Option, none, some, List, Text, codes}
use ha_skywatch.Prelude.Int.{ℤ}
use ha_skywatch.Python.{Float, Value, Platform, or_none}
use ha_skywatch.Python.Result.{Result, ok, err, Exec, pure}
use ha_skywatch.Time.{Instant, aware}
use ha_skywatch.Models.{Entry, Sighting, Movement, Direction, landed, took_off}
use ha_skywatch.Normalizers.{normalize_photo_url, coerce_int, coerce_float}
use ha_skywatch.Backends.Base.{Source, emit}

pub record Fields : Type 0 where
  pub id : Option Text
  pub callsign : Option Text
  pub flight_number : Option Text
  pub aircraft_code : Option Text
  pub aircraft_model : Option Text
  pub aircraft_registration : Option Text
  pub airline : Option Text
  pub airline_iata : Option Text
  pub airport_origin_code_iata : Option Text
  pub airport_origin_city : Option Text
  pub airport_destination_code_iata : Option Text
  pub airport_destination_city : Option Text
  pub altitude : Value
  pub ground_speed : Value
  pub heading : Value
  pub vertical_speed : Value
  pub closest_distance : Value
  pub aircraft_photo_small : Value
  pub tracked_by_device : Option Text

-- `event.data`: none where it is no `dict`. A key that is missing reads as none.
abbrev pub Payload : Type 0
Payload = Option Fields

unfoldable pub payload_to_entry : Instant → Payload → Option Entry
unfolding or_none
payload_to_entry now none = none
payload_to_entry now (some payload) = elim (or_none payload.id) [
  | none ↦ none
  | some flight_id ↦ some (record {
    flight_id = flight_id;
    entry_time = aware now;
    callsign = or_none payload.callsign;
    flight_number = or_none payload.flight_number;
    aircraft_code = or_none payload.aircraft_code;
    aircraft_model = or_none payload.aircraft_model;
  })
]

-- The sighting with the five numbers that the payload's values are coerced to.
unfoldable pub sighting_of :
    Instant → Fields → Option ℤ → Option ℤ → Option Float → Option ℤ → Option ℤ → Sighting
unfolding or_none normalize_photo_url
sighting_of now payload altitude ground_speed closest heading vertical_speed = record {
  exit_time = aware now;
  entry_time = none;
  flight_number = or_none payload.flight_number;
  callsign = or_none payload.callsign;
  airline = or_none payload.airline;
  airline_iata = or_none payload.airline_iata;
  aircraft_code = or_none payload.aircraft_code;
  aircraft_model = or_none payload.aircraft_model;
  registration = or_none payload.aircraft_registration;
  origin_iata = or_none payload.airport_origin_code_iata;
  origin_city = or_none payload.airport_origin_city;
  destination_iata = or_none payload.airport_destination_code_iata;
  destination_city = or_none payload.airport_destination_city;
  altitude_ft = altitude;
  ground_speed_kt = ground_speed;
  closest_km = closest;
  aircraft_photo = normalize_photo_url payload.aircraft_photo_small;
  tracked_by_device = or_none payload.tracked_by_device;
  heading = heading;
  vertical_speed = vertical_speed;
  on_ground = none;
}

abbrev then : {A B : Type 0} → Result A → (A → Result B) → Result B
then (ok a) f = f a
then (err e) f = err e

unfoldable pub payload_to_movement : Instant → Direction → Payload → Option Movement
unfolding or_none normalize_photo_url
payload_to_movement now direction none = none
payload_to_movement now direction (some payload) = some (record {
  event_time = aware now;
  direction = direction;
  airport_iata = elim direction [
    | landed ↦ or_none payload.airport_destination_code_iata
    | took_off ↦ or_none payload.airport_origin_code_iata
  ];
  flight_number = or_none payload.flight_number;
  callsign = or_none payload.callsign;
  airline = or_none payload.airline;
  airline_iata = or_none payload.airline_iata;
  aircraft_code = or_none payload.aircraft_code;
  aircraft_model = or_none payload.aircraft_model;
  registration = or_none payload.aircraft_registration;
  origin_iata = or_none payload.airport_origin_code_iata;
  destination_iata = or_none payload.airport_destination_code_iata;
  aircraft_photo = normalize_photo_url payload.aircraft_photo_small;
})

module _ (p : Platform) where
  unfoldable pub payload_to_sighting : Instant → Payload → Result (Option Sighting)
  unfolding sighting_of
  payload_to_sighting now none = ok none
  payload_to_sighting now (some payload) = then (coerce_int p payload.altitude) λ altitude.
      then (coerce_int p payload.ground_speed) λ ground_speed.
        then (coerce_float p payload.closest_distance) λ closest.
          then (coerce_int p payload.heading) λ heading.
            then (coerce_int p payload.vertical_speed) λ vertical_speed.
              ok (
                some (sighting_of now payload altitude ground_speed closest heading vertical_speed))

-- What a registered callback does with an event.
pub record Calls (C S : Type 0) : Type 0 where
  pub call_entry : Entry → C → Exec S (Unit {0})
  pub call_exit : Option Text → Sighting → C → Exec S (Unit {0})
  pub call_movement : Movement → C → Exec S (Unit {0})

module _ {A C S : Type 0} where
  -- `if model is not None: self._emit…(model)`
  abbrev pub emit_if : Option A → (A → C → Exec S (Unit {0})) → List C → Exec S (Unit {0})
  emit_if none call listeners = pure tt
  emit_if (some a) call listeners = emit (call a) listeners

  -- The same where the translation may have raised.
  abbrev pub emit_result :
      Result (Option A) → (A → C → Exec S (Unit {0})) → List C → Exec S (Unit {0})
  emit_result (err e) call listeners s = (err e, s)
  emit_result (ok o) call listeners s = emit_if o call listeners s

-- `event.data.get("id")`
abbrev pub id_of : Payload → Option Text
id_of none = none
id_of (some payload) = payload.id

module _ (p : Platform) {C S : Type 0} (calls : Calls C S) (source : Source C) (now : Instant) where
  unfoldable pub handle_entry : Payload → Exec S (Unit {0})
  unfolding payload_to_entry
  handle_entry payload =
      emit_if (payload_to_entry now payload) calls.call_entry source.entry_listeners

  unfoldable pub handle_exit : Payload → Exec S (Unit {0})
  unfolding payload_to_sighting
  handle_exit payload =
      emit_result (payload_to_sighting p now payload) (calls.call_exit (id_of payload))
        source.exit_listeners

  unfoldable pub handle_landed : Payload → Exec S (Unit {0})
  unfolding payload_to_movement
  handle_landed payload =
      emit_if (payload_to_movement now landed payload) calls.call_movement source.landing_listeners

  unfoldable pub handle_took_off : Payload → Exec S (Unit {0})
  unfolding payload_to_movement
  handle_took_off payload =
      emit_if (payload_to_movement now took_off payload) calls.call_movement
        source.takeoff_listeners
