-- ===== src/Http/Laws.antt =====
-- http.py: how the points, the ids and the trails of one answer hang together.
use ha_skywatch.Prelude.{
  ◌≤◌, ◌≡◌, refl, ap, List, [], ◌∷◌, Text, any, text_eq, ltb, leb, length, filter, count_if, All,
  arith, Bool-cases, inl, inr,
}
use ha_skywatch.Python.{Float}
use ha_skywatch.Classify.{is_helicopter}
use ha_skywatch.Storage.Statements.{Trails}
use ha_skywatch.Coordinator.{Config}
use ha_skywatch.Http.{
  LiveFlight, PointFeature, TrailFeature, is_placed, flight_key, point_feature, cons_key,
  point_features, flight_ids, helo_ids, trail_features,
}

-- The ids of the points that have one.
abbrev pub ids_of : List PointFeature → List Text
ids_of [] = []
ids_of (f ∷ points) = cons_key f.id (ids_of points)

module _ (cfg : Config) where
  length-point_features :
      (flights : List LiveFlight) → length (point_features cfg flights) ≡ count_if is_placed flights
  unfolding point_features
  length-point_features [] = refl
  length-point_features (f ∷ flights) = ground (arith, length-point_features flights)

  flight_ids-eq :
      (flights : List LiveFlight) → flight_ids cfg flights ≡ ids_of (point_features cfg flights)
  unfolding point_features flight_ids point_feature
  flight_ids-eq [] = refl
  flight_ids-eq (f ∷ flights) = elim (Bool-cases (is_placed f)) [
    | inl e ↦ rw e (ap (cons_key (flight_key f)) (flight_ids-eq flights))
    | inr e ↦ rw e (flight_ids-eq flights)
  ]

  helo_ids-eq :
      (flights : List LiveFlight)
      → helo_ids cfg flights
        ≡ ids_of (filter (λ (x : PointFeature). x.is_helo) (point_features cfg flights))
  unfolding point_features helo_ids point_feature
  helo_ids-eq [] = refl
  helo_ids-eq (f ∷ flights) = elim (Bool-cases (is_placed f)) [
    | inr e ↦ rw e (helo_ids-eq flights)
    | inl e ↦ elim (Bool-cases (is_helicopter f.aircraft_code cfg.helo_codes)) [
      | inl h ↦ rw (e, h) (ap (cons_key (flight_key f)) (helo_ids-eq flights))
      | inr h ↦ rw (e, h) (helo_ids-eq flights)
    ]
  ]

  -- There is a point for each flight with a position; trails are asked for exactly the ids of the
  -- points, in their order; and the ids marked as helicopters are those of the points so marked.
  pub point_features_lem :
      (flights : List LiveFlight)
      → (length (point_features cfg flights) ≡ count_if is_placed flights)
        × (flight_ids cfg flights ≡ ids_of (point_features cfg flights))
        × (helo_ids cfg flights
            ≡ ids_of (filter (λ (x : PointFeature). x.is_helo) (point_features cfg flights)))
  point_features_lem flights =
      (length-point_features flights, flight_ids-eq flights, helo_ids-eq flights)

  -- There is a line for each trail of two points or more and for no other, each line has the number
  -- of points that it says, and it is marked as a helicopter's if its id is.
  pub trail_features_lem :
      (helos : List Text) (trails : Trails)
      → (length (trail_features cfg helos trails)
          ≡ count_if (λ (x : Text × List (Float × Float)). leb 2 (length x.1)) trails)
        × All
            (λ (f : TrailFeature).
              (2 ≤ f.sample_count)
              × (f.sample_count ≡ length f.coordinates)
              × (f.is_helo ≡ any (text_eq f.trail_for) helos))
            (trail_features cfg helos trails)
  unfolding trail_features
  trail_features_lem helos [] = (refl, tt)
  trail_features_lem helos ((fid, coords) ∷ trails) = elim (Bool-cases (ltb (length coords) 2)) [
    | inl e ↦ rw e (
      (ground (arith, e, (trail_features_lem helos trails).0)),
      (trail_features_lem helos trails).1,
    )
    | inr e ↦ rw e (
      (ground (arith, e, (trail_features_lem helos trails).0)),
      (((ground arith), refl, refl), (trail_features_lem helos trails).1),
    )
  ]
