-- ===== src/Http/Answer.antt =====
-- http.py: what the answer of `SkywatchFlightsGeoJSONView.get` shows.
use ha_skywatch.Storage.Schema.{PositionRow}
use ha_skywatch.Storage.Repository.Paths.{points_of}
use ha_skywatch.Storage.Statements.{select_positions}
use ha_skywatch.Prelude.{
  count_if, filter, ◌≤◌, true, Option, none, some, List, [], ◌∷◌, ◌++◌, Text, any, text_eq, map,
  length, All, ◌≡◌, ◌*◌, ◌^◌,
}
use ha_skywatch.Prelude.Int.{pos}
use ha_skywatch.Python.{Float, Value, finite}
use ha_skywatch.Python.Result.{Result, ok, err}
use ha_skywatch.Storage.Statements.{Trails}
use ha_skywatch.Http.{
  PointFeature, LiveFlight, TrailFeature, is_placed, point, line_string, point_features, helo_ids,
  trail_features,
}
use ha_skywatch.Http.View.{Shown, Collection, collection}
use ha_skywatch.Http.Laws.{ids_of}
use ha_skywatch.Http.Lines.{IsAbout, line_of}

-- The value that a key has, or the default of a missing one.
abbrev pub IsRead : Float → Option Float → Float → Type 0
IsRead default none x = x ≡ default
IsRead default (some y) x = x ≡ y

-- What an answer shows for the coordinator c.
pub record IsMap (thousandfold : Float → Float) (c : Shown) (o : Result Collection) : Type 0 where
  pub longitude : Float
  pub latitude : Float
  pub radius_km : Float
  pub points : List PointFeature
  pub lines : List TrailFeature
  pub answer :
      o
      ≡ ok (
          collection
            (longitude, latitude)
            (thousandfold radius_km)
            (map point points ++ map line_string lines))
  pub at_longitude : IsRead (finite (pos 0)) c.options.home_longitude longitude
  pub at_latitude : IsRead (finite (pos 0)) c.options.home_latitude latitude
  pub in_radius : IsRead (finite (pos (50 * 2 ^ 1074))) c.options.radius_km radius_km
  -- A point for each flight with a position, there.
  pub placed :
      map {B = Value × Value} (λ (f : PointFeature). (f.longitude, f.latitude)) points
      ≡ map {B = Value × Value}
          (λ (f : LiveFlight). (f.longitude, f.latitude))
          (filter is_placed c.flights)
  -- Each line is about the id of a point and has two points or more.
  pub about : All (λ (t : TrailFeature). any (text_eq t.trail_for) (ids_of points) ≡ true) lines
  pub long : All (λ (t : TrailFeature). 2 ≤ length t.coordinates) lines
  -- The flight of a point of which two positions or more are stored has its line, through all of them
  -- in the order of their times.
  pub complete :
      (j : Text)
      → any (text_eq j) (ids_of points) ≡ true
      → 2
        ≤ count_if
            (λ (r : PositionRow). text_eq r.flight_id j)
            c.world.store.conn.working.flight_positions
      → line_of j lines
        ≡ some (points_of j (select_positions (ids_of points) c.world.store.conn.working))

module _ (c : Shown) (home : Float × Float) (radius : Float) where
  -- The answer for the ids asked for.
  abbrev for_ids : List Text → Result Trails → Result Collection
  for_ids ids (err e) = err e
  for_ids ids (ok trails) = ok (
      collection home radius (
        map point (point_features c.config c.flights) ++ (elim ids [
          | [] ↦ []
          | fid ∷ ids' ↦
              map line_string (trail_features c.config (helo_ids c.config c.flights) trails)
        ])))

  -- It returns the points and the lines of the ids.
  abbrev IsAnswered : List Text → Result Collection → Type 0
  IsAnswered ids o =
      (lines : List TrailFeature) × (o
        ≡ ok (
            collection home radius
              (map point (point_features c.config c.flights) ++ map line_string lines)))
      × All (IsAbout ids) lines
      × All (λ (t : TrailFeature). 2 ≤ length t.coordinates) lines
      × ((j : Text)
          → any (text_eq j) ids ≡ true
          → 2
            ≤ count_if (λ (r : PositionRow). text_eq r.flight_id j)
                c.world.store.conn.working.flight_positions
          → line_of j lines ≡ some (points_of j (select_positions ids c.world.store.conn.working)))
