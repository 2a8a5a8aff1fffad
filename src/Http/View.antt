-- ===== src/Http/View.antt =====
-- http.py: the whole answer of `SkywatchFlightsGeoJSONView.get`.
use ha_skywatch.Prelude.{Option, none, some, List, [], ◌∷◌, ◌*◌, ◌^◌}
use ha_skywatch.Prelude.Int.{pos}
use ha_skywatch.Python.{Float, finite}
use ha_skywatch.Python.Result.{Result, ok, err}
use ha_skywatch.Storage.Statements.{Trails}
use ha_skywatch.Coordinator.{World, Config}
use ha_skywatch.Coordinator.Refresh.{async_fetch_trails}
use ha_skywatch.Http.{LiveFlight, Feature, flight_ids, features}

-- The keys of an entry that the view reads, `{**data, **options}`; none where a key is missing.
pub record MapOptions : Type 0 where
  pub home_latitude : Option Float
  pub home_longitude : Option Float
  pub radius_km : Option Float

-- A coordinator with its source's `current_flights()` and the options of its entry.
pub record Shown : Type 0 where
  pub world : World
  pub config : Config
  pub flights : List LiveFlight
  pub options : MapOptions

-- The body of the answer: without a coordinator it has no home and no radius.
pub data Collection : Type 0 where
  bare : Collection
  collection : Float × Float → Float → List Feature → Collection

abbrev pub or_float : Float → Option Float → Float
or_float default none = default
or_float default (some x) = x

abbrev pub home_of : MapOptions → Float × Float
home_of o = (or_float (finite (pos 0)) o.home_longitude, or_float (finite (pos 0)) o.home_latitude)

abbrev pub radius_of : MapOptions → Float
radius_of o = or_float (finite (pos (50 * 2 ^ 1074))) o.radius_km

-- `thousandfold x` is the double nearest to `x * 1000`.
module _ (thousandfold : Float → Float) where
  abbrev pub answered : Shown → Result Trails → Result Collection
  unfolding features
  answered c (err e) = err e
  answered c (ok trails) = ok (
      collection (home_of c.options) (thousandfold (radius_of c.options))
        (features c.config c.flights (λ _. trails)))

  -- `get`, given the values of `hass.data[DOMAIN]`: the first one is shown.
  unfoldable pub get : List Shown → Result Collection
  unfolding async_fetch_trails flight_ids answered
  get [] = ok bare
  get (c ∷ rest) = answered c (async_fetch_trails (flight_ids c.config c.flights) c.world).0
