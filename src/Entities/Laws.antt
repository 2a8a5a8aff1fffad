-- ===== src/Entities/Laws.antt =====
-- What the entities show of the database and of the live flights.
use ha_skywatch.Prelude.{
  ℕ, ◌+◌, ◌≤◌, ◌≡◌, refl, ap, ◌∙◌, true, Option, none, some, List, [], ◌∷◌, Text, any, ltb, length,
  count_if, arith,
}
use ha_skywatch.Prelude.Int.{ℤ}
use ha_skywatch.Python.{Float, Platform, Zone, or_none}
use ha_skywatch.Classify.{WatchEntry}
use ha_skywatch.Storage.Schema.{Database}
use ha_skywatch.Coordinator.{Config}
use ha_skywatch.DataBuilder.{Clock, build_data, watch_of}
use ha_skywatch.DataBuilder.Laws.{last_entry, get_watch-build_data, answer, answer_or}
use ha_skywatch.Entities.{
  built, count_of, watch_value, SeenFlight, is_helo, helicopter_overhead, helicopters,
  cons_callsign, has_aircraft,
}

module _ (p : Platform) (tz : Zone) (d : Database) (clock : Clock) (page : ℕ) (search : Text)
    (military : List Text) (watch_list : List WatchEntry) (distance_km : Float) (altitude_ft : ℤ)
    (in_area : ℕ) where
  -- The sensor of a watch list entry shows how many sightings the entry's watch query counts, if
  -- no later entry has its slug.
  pub watch_value-build_data :
      (watch : WatchEntry)
      → last_entry watch.slug watch_list ≡ some watch
      → watch_value watch (
          built (
            build_data p tz d clock page search military watch_list distance_km altitude_ft
              in_area))
        ≡ (watch_of p tz d (clock.watch watch) watch).count
  unfolding watch_value
  watch_value-build_data watch e = ap count_of (
      get_watch-build_data p tz d clock page search military watch_list distance_km altitude_ft
        in_area watch.slug
      ∙ ap (λ o. answer_or (answer p tz d clock.watch) o none) e)

length-cons_callsign :
    (cfg : Config) (c : Option Text) (rest : List Text)
    → length (cons_callsign cfg c rest) ≤ length rest + 1
length-cons_callsign cfg none rest = omega arith
length-cons_callsign cfg (some c) rest = omega arith

length-helicopters :
    (cfg : Config) (flights : List SeenFlight)
    → length (helicopters cfg flights) ≤ count_if (is_helo cfg) flights
unfolding helicopters
length-helicopters cfg [] = omega arith
length-helicopters cfg (f ∷ flights) = ground (
  arith,
  length-helicopters cfg flights,
  length-cons_callsign cfg (or_none f.callsign) (helicopters cfg flights),
)

-- The helicopter sensor is on exactly where the live flights have a helicopter, its list has no
-- more callsigns than there are helicopters, and where it is on an aircraft is present.
pub helicopter_overhead_lem :
    (cfg : Config) (flights : List SeenFlight)
    → (helicopter_overhead cfg flights ≡ ltb 0 (count_if (is_helo cfg) flights))
      × (length (helicopters cfg flights) ≤ count_if (is_helo cfg) flights)
      × (helicopter_overhead cfg flights ≡ true → has_aircraft flights ≡ true)
unfolding helicopter_overhead has_aircraft
helicopter_overhead_lem cfg flights =
    (some_helo flights, length-helicopters cfg flights, present flights)
  where
    some_helo : (fs : List SeenFlight) → any (is_helo cfg) fs ≡ ltb 0 (count_if (is_helo cfg) fs)
    some_helo [] = refl
    some_helo (f ∷ fs) = ground (arith, some_helo fs)

    present : (fs : List SeenFlight) → any (is_helo cfg) fs ≡ true → ltb 0 (length fs) ≡ true
    present [] h = cc
    present (f ∷ fs) h = ground arith
