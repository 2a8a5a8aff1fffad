-- ===== src/Coordinator/Capture.antt =====
-- coordinator.py: the trail capture.
use ha_skywatch.Prelude.{Option, none, some, List, [], ◌∷◌, Text, if◌then◌else◌}
use ha_skywatch.Python.{Value, null, Float, Platform, or_none, or_else}
use ha_skywatch.Python.Result.{Result, ok, err}
use ha_skywatch.Time.{Instant, aware}
use ha_skywatch.Normalizers.{to_float}
use ha_skywatch.Storage.Repository.{Sample}
use ha_skywatch.Coordinator.{World, Flight, write_positions, async_db}

abbrev sample_at : Instant → Text → Option Float → Option Float → Option Sample
sample_at now fid (some lat) (some lon) =
    some (record { flight_id = fid; ts = aware now; lat = lat; lon = lon })
sample_at now fid _ _ = none

module _ (p : Platform) where
  abbrev then_longitude : Instant → Text → Option Float → Value → Result (Option Sample)
  then_longitude now fid none lon = ok none
  then_longitude now fid (some lat) lon = elim (to_float p lon) [
    | err e ↦ err e
    | ok f ↦ ok (sample_at now fid (some lat) f)
  ]

  abbrev read_position : Instant → Text → Value → Value → Result (Option Sample)
  read_position now fid null lon = ok none
  read_position now fid lat null = ok none
  read_position now fid lat lon = elim (to_float p lat) [
    | err e ↦ err e
    | ok f ↦ then_longitude now fid f lon
  ]

  -- The tuple that `_capture_positions` appends for a flight, if any.
  unfoldable pub sample_of : Instant → Flight → Result (Option Sample)
  unfolding to_float or_else
  sample_of now flight =
      elim (or_none (or_else (or_else flight.id flight.callsign) flight.flight_number)) [
        | none ↦ ok none
        | some fid ↦ read_position now fid flight.latitude flight.longitude
      ]

  abbrev append_sample : Option Sample → List Sample → List Sample
  append_sample none rows = rows
  append_sample (some s) rows = s ∷ rows

  -- The loop of `_capture_positions`.
  unfoldable pub capture_rows : Instant → List Flight → Result (List Sample)
  unfolding sample_of
  capture_rows now [] = ok []
  capture_rows now (flight ∷ flights) = elim (sample_of now flight) [
    | err e ↦ err e
    | ok s ↦ elim (capture_rows now flights) [ err e ↦ err e | ok rows ↦ ok (append_sample s rows) ]
  ]

  abbrev pub queue_rows : Result (List Sample) → World → World
  queue_rows (err e) w = w
  queue_rows (ok []) w = w
  queue_rows (ok (s ∷ rows)) w = async_db (write_positions (s ∷ rows)) w

  unfoldable pub capture_positions : Instant → List Flight → World → World
  unfolding capture_rows async_db
  capture_positions now flights w = if w.has_db then queue_rows (capture_rows now flights) w else w
