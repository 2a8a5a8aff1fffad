-- ===== src/Storage/Queries/Overhead.antt =====
-- storage/queries.py: `query_overhead`.
use ha_skywatch.Prelude.{
  All-take, ℕ, ◌≡◌, refl, ◌∙◌, ap, Bool, true, false, ◌&&◌, Option, none, some, List, [], ◌∷◌,
  arith, length, take, filter, count_if, min, All, length-take, length-filter,
}
use ha_skywatch.Prelude.Int.{ℤ, ltb_ℤ}
use ha_skywatch.Prelude.Sort.{length-sort_by, All-sort_by}
use ha_skywatch.Python.{Float, ltb_float}
use ha_skywatch.Storage.Schema.{SightingRow, Database}
use ha_skywatch.Storage.Queries.Recent.{newest_first, newer}

abbrev pub default_overhead_limit : ℕ
default_overhead_limit = 50

-- WHERE closest_km < ? AND altitude_ft < ?; a NULL passes no comparison.
abbrev pub is_nearer : Float → Option Float → Bool
is_nearer distance_km none = false
is_nearer distance_km (some km) = ltb_float km distance_km

abbrev pub is_lower : ℤ → Option ℤ → Bool
is_lower altitude_ft none = false
is_lower altitude_ft (some ft) = ltb_ℤ ft altitude_ft

unfoldable pub is_overhead : Float → ℤ → SightingRow → Bool
is_overhead distance_km altitude_ft r =
    is_nearer distance_km r.closest_km && is_lower altitude_ft r.altitude_ft

pub record Overhead : Type 0 where
  pub count : ℕ
  pub recent_overhead : List SightingRow

unfoldable pub query_overhead : Float → ℤ → ℕ → Database → Overhead
unfolding newest_first
query_overhead distance_km altitude_ft limit d = record {
  count = count_if (is_overhead distance_km altitude_ft) d.sightings;
  recent_overhead =
      take limit (newest_first (filter (is_overhead distance_km altitude_ft) d.sightings));
}

-- The sighting has a distance and an altitude, and both lie below the bounds.
abbrev pub IsWithin : Float → ℤ → SightingRow → Type 0
IsWithin distance_km altitude_ft s =
    (km : Float) × (ft : ℤ) × (s.closest_km ≡ some km)
    × (s.altitude_ft ≡ some ft)
    × (ltb_float km distance_km ≡ true)
    × (ltb_ℤ ft altitude_ft ≡ true)

within :
    (distance_km : Float) (altitude_ft : ℤ) (s : SightingRow)
    → is_overhead distance_km altitude_ft s ≡ true
    → IsWithin distance_km altitude_ft s
unfolding is_overhead
within distance_km altitude_ft s h = both s.closest_km s.altitude_ft h
  where
    both :
        (near : Option Float) (low : Option ℤ)
        → (is_nearer distance_km near && is_lower altitude_ft low) ≡ true
        → (km : Float) × (ft : ℤ) × (near ≡ some km)
          × (low ≡ some ft)
          × (ltb_float km distance_km ≡ true)
          × (ltb_ℤ ft altitude_ft ≡ true)
    both none low k = cc
    both (some km) none k = absurd (ground arith)
    both (some km) (some ft) k = (km, ft, refl, refl, ground arith, ground arith)

-- The overhead query counts every sighting nearer than the distance and lower than the altitude,
-- and lists as many of those as the limit allows, each of which passes both tests.
pub query_overhead_lem :
    (distance_km : Float) (altitude_ft : ℤ) (limit : ℕ) (d : Database)
    → let r = query_overhead distance_km altitude_ft limit d in
      (length r.recent_overhead ≡ min limit r.count)
      × All (IsWithin distance_km altitude_ft) r.recent_overhead
unfolding query_overhead
query_overhead_lem distance_km altitude_ft limit d =
    let test = is_overhead distance_km altitude_ft in
    let rows = filter test d.sightings in
    (
      length-take limit (newest_first rows)
          ∙ ap (min limit)
              ((unfold newest_first in length-sort_by newer rows) ∙ length-filter test d.sightings),
      All-take (IsWithin distance_km altitude_ft) limit (newest_first rows) (
          unfold newest_first in
          All-sort_by newer (IsWithin distance_km altitude_ft) rows
            (passing test d.sightings (λ s. within distance_km altitude_ft s))),
    )
  where
    passing :
        {P : SightingRow → Type 0} (test : SightingRow → Bool) (rows : List SightingRow)
        → ((s : SightingRow) → test s ≡ true → P s)
        → All P (filter test rows)
    passing test [] h = tt
    passing test (s ∷ rows) h = ground (arith, h s, passing test rows h)
