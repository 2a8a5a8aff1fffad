-- ===== src/Http.antt =====
-- custom_components/skywatch/http.py: the GeoJSON of the map.
pub mod Laws
pub mod View
pub mod Lines
pub mod Answer
use ha_skywatch.Prelude.{
  ℕ, Bool, true, false, not, ◌||◌, ◌&&◌, Option, none, some, List, [], ◌∷◌, ◌++◌, Text, codes, any,
  text_eq, ltb, length, filter, map, if◌then◌else◌,
}
use ha_skywatch.Python.{Float, Value, null, or_none, or_else}
use ha_skywatch.Classify.{WatchEntry, is_helicopter, is_military, match_watch}
use ha_skywatch.Storage.Statements.{Trails}
use ha_skywatch.Coordinator.{Config}

-- The keys of a flight that the view reads.
pub record LiveFlight : Type 0 where
  pub id : Option Text
  pub callsign : Option Text
  pub flight_number : Option Text
  pub latitude : Value
  pub longitude : Value
  pub altitude : Value
  pub heading : Value
  pub ground_speed : Value
  pub aircraft_code : Option Text
  pub aircraft_model : Option Text
  pub aircraft_registration : Option Text

-- `"geometry": {"type": "Point", …}` and its properties.
pub record PointFeature : Type 0 where
  pub id : Option Text
  pub longitude : Value
  pub latitude : Value
  pub flight_id : Option Text
  pub callsign : Option Text
  pub altitude_ft : Value
  pub heading : Value
  pub ground_speed_kt : Value
  pub aircraft_code : Option Text
  pub aircraft_model : Option Text
  pub is_helo : Bool
  pub is_military : Bool
  pub watch_slug : Option Text
  pub watch_label : Option Text

-- `"geometry": {"type": "LineString", …}`
pub record TrailFeature : Type 0 where
  pub id : Text
  pub coordinates : List (Float × Float)
  pub trail_for : Text
  pub is_helo : Bool
  pub sample_count : ℕ

pub data Feature : Type 0 where
  point : PointFeature → Feature
  line_string : TrailFeature → Feature

abbrev is_null : Value → Bool
is_null null = true
is_null _ = false

-- `lat is None or lon is None`, negated
abbrev pub is_placed : LiveFlight → Bool
is_placed f = not (is_null f.latitude) && not (is_null f.longitude)

-- `f.get("id") or f.get("callsign") or f.get("flight_number")`, where it is true
unfoldable pub flight_key : LiveFlight → Option Text
unfolding or_none or_else
flight_key f = or_none (or_else (or_else f.id f.callsign) f.flight_number)

-- `if fid: flight_ids.append(str(fid))`
abbrev pub cons_key : Option Text → List Text → List Text
cons_key none ids = ids
cons_key (some fid) ids = fid ∷ ids

module _ (cfg : Config) where
  unfoldable pub point_feature : LiveFlight → PointFeature
  unfolding flight_key
  point_feature f =
      let watch =
        match_watch
          (record {
            aircraft_registration = f.aircraft_registration;
            registration = none;
            aircraft_code = f.aircraft_code;
            callsign = f.callsign;
          })
          cfg.watch_list in
      record {
        id = flight_key f;
        longitude = f.longitude;
        latitude = f.latitude;
        flight_id = f.id;
        callsign = f.callsign;
        altitude_ft = f.altitude;
        heading = f.heading;
        ground_speed_kt = f.ground_speed;
        aircraft_code = f.aircraft_code;
        aircraft_model = f.aircraft_model;
        is_helo = is_helicopter f.aircraft_code cfg.helo_codes;
        is_military = is_military f.aircraft_code cfg.military_codes;
        watch_slug = elim watch [ none ↦ none | some w ↦ some w.slug ];
        watch_label = elim watch [ none ↦ none | some w ↦ some w.label ];
      }

  -- The loop over the flights: `features`, `flight_ids` and `helo_ids`.
  unfoldable pub point_features : List LiveFlight → List PointFeature
  unfolding point_feature
  point_features [] = []
  point_features (f ∷ flights) =
      let rest = point_features flights in if is_placed f then point_feature f ∷ rest else rest

  unfoldable pub flight_ids : List LiveFlight → List Text
  unfolding flight_key
  flight_ids [] = []
  flight_ids (f ∷ flights) =
      let rest = flight_ids flights in if is_placed f then cons_key (flight_key f) rest else rest

  unfoldable pub helo_ids : List LiveFlight → List Text
  unfolding flight_key
  helo_ids [] = []
  helo_ids (f ∷ flights) =
      let rest = helo_ids flights in
      if is_placed f && is_helicopter f.aircraft_code cfg.helo_codes
      then cons_key (flight_key f) rest
      else rest

  -- The loop over the trails.
  unfoldable pub trail_features : List Text → Trails → List TrailFeature
  trail_features helos [] = []
  trail_features helos ((fid, coords) ∷ trails) =
      let rest = trail_features helos trails in
      if ltb (length coords) 2
      then rest
      else record {
        id = fid ++ codes "-trail";
        coordinates = coords;
        trail_for = fid;
        is_helo = any (text_eq fid) helos;
        sample_count = length coords;
      }
        ∷ rest

  -- The features, given what `async_fetch_trails` answers for the ids.
  unfoldable pub features : List LiveFlight → (List Text → Trails) → List Feature
  unfolding point_features flight_ids helo_ids trail_features
  features flights fetch_trails = map point (point_features flights) ++ (elim (flight_ids flights) [
    | [] ↦ []
    | fid ∷ ids ↦ map line_string (trail_features (helo_ids flights) (fetch_trails (fid ∷ ids)))
  ])
