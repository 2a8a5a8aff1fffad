-- ===== src/Storage/Queries/Watch.antt =====
-- `query_watch_aircraft`
use ha_skywatch.Prelude.{
  ℕ, zero, suc, ◌+◌, ◌/◌, ◌%◌, ◌≡◌, ◌≢◌, refl, ap, Bool, false, ◌||◌, ◌&&◌, not, Option, none, some,
  List, [], ◌∷◌, ◌++◌, arith, Text, codes, take, filter, count_if, ltb, text_eq, text_eq_iff,
  if◌then◌else◌, is_empty, upper, strip,
}
use ha_skywatch.Prelude.Int.{ℤ, pos, negsuc}
use ha_skywatch.Time.{Instant}
use ha_skywatch.Python.{Float, Platform, Zone, or_empty, is_none}
use ha_skywatch.Normalizers.{parse_iso}
use ha_skywatch.Storage.Schema.{SightingRow, Database}
use ha_skywatch.Storage.Queries.Decorate.{Decorated, decorate, seconds_between}
use ha_skywatch.Storage.Queries.Recent.{newest_first}
use ha_skywatch.Classify.{WatchEntry, entry_matches}

abbrev pub default_aircraft_recent_limit : ℕ
default_aircraft_recent_limit = 10

-- UPPER(IFNULL(registration,'')) = ?
abbrev pub has_registration : Text → SightingRow → Bool
has_registration reg r = text_eq (upper (or_empty r.registration)) reg

-- UPPER(IFNULL(aircraft_code,'')) = ? AND callsign = 'Blocked' AND registration IS NULL
abbrev pub is_blocked : Text → SightingRow → Bool
is_blocked fp r =
    text_eq (upper (or_empty r.aircraft_code)) fp
    && (text_eq (or_empty r.callsign) (codes "Blocked") && is_none r.registration)

-- The WHERE clause, from the two identifiers of which one is not empty.
unfoldable pub watch_where : Text → Text → SightingRow → Bool
watch_where reg fp r =
    if not (is_empty reg) && not (is_empty fp)
    then has_registration reg r || is_blocked fp r
    else if not (is_empty fp)
    then is_blocked fp r
    else has_registration reg r

-- A decimal number
unfoldable pub decimal_fuel : ℕ → ℕ → Text
decimal_fuel zero n = []
decimal_fuel (suc f) n =
    let higher = decimal_fuel f (n / 10) in
    if ltb n 10 then (48 + n) ∷ [] else higher ++ ((48 + n % 10) ∷ [])

-- `str(n)`: a number has no more digits than its own value and one.
unfoldable pub decimal : ℕ → Text
unfolding decimal_fuel
decimal n = decimal_fuel (n + 1) n

-- The chain of tests on `seconds`; a negative age is "just now".
unfoldable pub relative_text : ℤ → Text
unfolding decimal
relative_text (negsuc n) = codes "just now"
relative_text (pos seconds) =
    if ltb seconds 60
    then codes "just now"
    else if ltb seconds 3600
    then decimal (seconds / 60) ++ codes " min ago"
    else if ltb seconds 86400
    then decimal (seconds / 3600) ++ codes " h ago"
    else decimal (seconds / 86400) ++ codes " days ago"

pub record WatchResult : Type 0 where
  pub count : ℕ
  pub registration : Text
  pub last_seen : Option Text
  pub last_seen_local : Option Text
  pub last_seen_relative : Option Text
  pub last_callsign : Option Text
  pub last_flight_number : Option Text
  pub last_origin : Option Text
  pub last_destination : Option Text
  pub last_altitude_ft : Option ℤ
  pub last_closest_km : Option Float
  pub last_aircraft_model : Option Text
  pub recent : List Decorated

module _ (p : Platform) where
  -- `relative`, from `last_seen`.
  unfoldable pub relative : Instant → Text → Option Text
  unfolding relative_text
  relative now last_seen = elim (parse_iso p (some last_seen)) [
    | none ↦ none
    | some dt ↦ some (relative_text (seconds_between now dt))
  ]

  -- The result of the last part, from the count and the recent rows.
  unfoldable pub watch_result : ℕ → Text → Instant → List Decorated → WatchResult
  unfolding relative
  watch_result total reg now [] = record {
    count = total;
    registration = reg;
    last_seen = none;
    last_seen_local = none;
    last_seen_relative = none;
    last_callsign = none;
    last_flight_number = none;
    last_origin = none;
    last_destination = none;
    last_altitude_ft = none;
    last_closest_km = none;
    last_aircraft_model = none;
    recent = [];
  }
  watch_result total reg now (last ∷ recent) = record {
    count = total;
    registration = reg;
    last_seen = some last.exit_time;
    last_seen_local = last.exit_time_local;
    last_seen_relative = relative now last.exit_time;
    last_callsign = last.callsign;
    last_flight_number = last.flight_number;
    last_origin = last.origin_iata;
    last_destination = last.destination_iata;
    last_altitude_ft = last.altitude_ft;
    last_closest_km = last.closest_km;
    last_aircraft_model = last.aircraft_model;
    recent = take 5 (last ∷ recent);
  }

  -- With neither identifier nothing matches, and the keys that the dict lacks read as none.
  unfoldable pub query_watch_aircraft : Text → Zone → Option Text → Instant → Database → WatchResult
  unfolding watch_where watch_result newest_first
  query_watch_aircraft registration tz fingerprint_code now d =
      let reg = upper (strip registration) in
      let fp = upper (strip (or_empty fingerprint_code)) in
      if is_empty reg && is_empty fp
      then watch_result 0 [] now []
      else watch_result (count_if (watch_where reg fp) d.sightings) reg now (
          decorate p tz (
            take default_aircraft_recent_limit
              (newest_first (filter (watch_where reg fp) d.sightings))))

-- The identifiers that the query of a watch entry compares with.
abbrev pub watch_registration : WatchEntry → Text
watch_registration entry = upper (strip (or_empty entry.registration))

abbrev pub watch_fingerprint : WatchEntry → Text
watch_fingerprint entry =
    if entry.match_blocked then upper (strip (or_empty entry.aircraft_code)) else []

-- The texts of the entry have no space at either end, as `strip` leaves them.
abbrev pub IsStripped : WatchEntry → Type 0
IsStripped entry =
    (strip (or_empty entry.registration) ≡ or_empty entry.registration)
    × (strip (or_empty entry.aircraft_code) ≡ or_empty entry.aircraft_code)

pub is_empty-upper : (s : Text) → is_empty (upper s) ≡ is_empty s
unfolding is_empty upper
is_empty-upper [] = refl
is_empty-upper (c ∷ s) = refl

none_iff_empty : (o : Option Text) → o ≢ some [] → is_none o ≡ is_empty (or_empty o)
unfolding is_empty
none_iff_empty none h = refl
none_iff_empty (some []) h = absurd (h refl)
none_iff_empty (some (c ∷ s)) h = refl

-- For a watch entry without outer spaces and with some identifier, and a sighting whose
-- registration is not the empty text: the sighting is counted by the entry's watch query exactly
-- when the live matcher takes its flight for the entry.
pub watch_where-eq-entry_matches :
    (entry : WatchEntry) (r : SightingRow)
    → IsStripped entry
    → (is_empty (watch_registration entry) && is_empty (watch_fingerprint entry)) ≡ false
    → r.registration ≢ some []
    → watch_where (watch_registration entry) (watch_fingerprint entry) r
      ≡ entry_matches
          (upper (or_empty r.registration))
          (upper (or_empty r.aircraft_code))
          (or_empty r.callsign)
          entry
unfolding watch_where entry_matches
watch_where-eq-entry_matches entry r (reg_stripped, code_stripped) some_id no_empty =
    let reg = or_empty entry.registration in
    let code = or_empty entry.aircraft_code in
    let row_reg = or_empty r.registration in
    let row_code = or_empty r.aircraft_code in
    ground (
      arith,
      ap upper reg_stripped,
      ap upper code_stripped,
      is_empty-upper reg,
      is_empty-upper code,
      is_empty-upper row_reg,
      text_eq_iff (upper row_reg) (upper reg),
      text_eq_iff (upper reg) (upper row_reg),
      text_eq_iff (upper row_code) (upper code),
      text_eq_iff (upper code) (upper row_code),
      none_iff_empty r.registration no_empty,
      some_id,
      ap is_empty reg_stripped,
    )
