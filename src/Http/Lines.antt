-- ===== src/Http/Lines.antt =====
-- http.py: the points and the lines of the map, one by one.
use ha_skywatch.Prelude.{
  filter, ◌≤◌, Bool, true, false, Option, none, some, List, [], ◌∷◌, Text, any, text_eq,
  text_eq_iff, map, length, ltb, All, ◌≡◌, ◌⊎◌, refl, ap, arith, Bool-cases, inl, inr,
  if◌then◌else◌,
}
use ha_skywatch.Python.{Float, Value}
use ha_skywatch.Storage.Statements.{Trails}
use ha_skywatch.Storage.Repository.Paths.{trail}
use ha_skywatch.Coordinator.{Config}
use ha_skywatch.Http.{
  PointFeature, LiveFlight, TrailFeature, is_placed, point_feature, point_features, trail_features,
}

pub known_trails :
    (ids : List Text) (out : Trails)
    → ((j : Text) → any (text_eq j) ids ≡ false → trail j out ≡ none)
    → All (λ (x : Text × List (Float × Float)). any (text_eq x.0) ids ≡ true) out
unfolding trail
known_trails ids [] h = tt
known_trails ids ((k, points) ∷ out) h = (
  elim (Bool-cases (any (text_eq k) ids)) [
    | inl known ↦ known
    | inr unknown ↦ absurd (ground (arith, h k unknown, text_eq_iff k k))
  ],
  known_trails ids out (λ j unknown. later j unknown (Bool-cases (text_eq k j))),
)
  where
    later :
        (j : Text)
        → any (text_eq j) ids ≡ false
        → (text_eq k j ≡ true) ⊎ (text_eq k j ≡ false)
        → trail j out ≡ none
    later j unknown (inl same) = absurd (ground (arith, h j unknown, same))
    later j unknown (inr other) = ground (arith, h j unknown, other)

-- The line is about one of the ids.
abbrev pub IsAbout : List Text → TrailFeature → Type 0
IsAbout ids t = any (text_eq t.trail_for) ids ≡ true

pub lines-IsAbout :
    (ids helos : List Text) (cfg : Config) (out : Trails)
    → All (λ (x : Text × List (Float × Float)). any (text_eq x.0) ids ≡ true) out
    → All (IsAbout ids) (trail_features cfg helos out)
unfolding trail_features
lines-IsAbout ids helos cfg [] h = tt
lines-IsAbout ids helos cfg ((fid, coords) ∷ out) (known, h) =
    elim (Bool-cases (ltb (length coords) 2)) [
      | inl short ↦ rw short (lines-IsAbout ids helos cfg out h)
      | inr long ↦ rw long (known, lines-IsAbout ids helos cfg out h)
    ]

pub unasked :
    (b : Bool) (x : Option (List (Float × Float))) → b ≡ false → (if b then x else none) ≡ none
unasked true x h = cc
unasked false x h = refl

-- The coordinates of the first line that is about the flight.
abbrev pub line_of : Text → List TrailFeature → Option (List (Float × Float))
line_of j [] = none
line_of j (t ∷ lines) = if text_eq t.trail_for j then some t.coordinates else line_of j lines

pub line_of-trail_features :
    (j : Text) (helos : List Text) (cfg : Config) (out : Trails) (coords : List (Float × Float))
    → trail j out ≡ some coords
    → 2 ≤ length coords
    → line_of j (trail_features cfg helos out) ≡ some coords
unfolding trail trail_features
line_of-trail_features j helos cfg [] coords h long = cc
line_of-trail_features j helos cfg ((fid, first) ∷ out) coords h long =
    cases (Bool-cases (text_eq fid j)) (Bool-cases (ltb (length first) 2))
      (λ later. line_of-trail_features j helos cfg out coords later long)
  where
    found : text_eq fid j ≡ true → first ≡ coords
    found here = cc

    cases :
        (text_eq fid j ≡ true) ⊎ (text_eq fid j ≡ false)
        → (ltb (length first) 2 ≡ true) ⊎ (ltb (length first) 2 ≡ false)
        → (trail j out ≡ some coords → line_of j (trail_features cfg helos out) ≡ some coords)
        → line_of j (trail_features cfg helos ((fid, first) ∷ out)) ≡ some coords
    cases (inl here) (inl short) ih = absurd (ground (arith, short, long, ap length (found here)))
    cases (inl here) (inr enough) ih = rw (enough, here) (ap some (found here))
    cases (inr other) (inl short) ih = rw short (ih (ground (arith, h, other)))
    cases (inr other) (inr enough) ih = rw (enough, other) (ih (ground (arith, h, other)))

pub long_lines :
    (helos : List Text) (cfg : Config) (out : Trails)
    → All (λ (t : TrailFeature). 2 ≤ length t.coordinates) (trail_features cfg helos out)
unfolding trail_features
long_lines helos cfg [] = tt
long_lines helos cfg ((fid, coords) ∷ out) = elim (Bool-cases (ltb (length coords) 2)) [
  | inl short ↦ rw short (long_lines helos cfg out)
  | inr enough ↦ rw enough (ground (arith, enough), long_lines helos cfg out)
]

pub placed_points :
    (cfg : Config) (flights : List LiveFlight)
    → map {B = Value × Value}
        (λ (f : PointFeature). (f.longitude, f.latitude))
        (point_features cfg flights)
      ≡ map {B = Value × Value}
          (λ (f : LiveFlight). (f.longitude, f.latitude))
          (filter is_placed flights)
unfolding point_features point_feature
placed_points cfg [] = refl
placed_points cfg (f ∷ flights) = elim (Bool-cases (is_placed f)) [
  | inl e ↦ rw e (ap (λ xs. (f.longitude, f.latitude) ∷ xs) (placed_points cfg flights))
  | inr e ↦ rw e (placed_points cfg flights)
]
