-- ===== src/Storage/Repository/Paths.antt =====
-- `fetch_trails`: the points of each flight that is asked for, in the order of their times.
use ha_skywatch.Prelude.{
  Bool, true, false, not, Option, none, some, List, [], ◌∷◌, ◌++◌, Text, ◌≡◌, ◌≢◌, refl, ◌∙◌, arith,
  text_eq, text_eq_iff, text_lt, compare_text-swap, text_le_trans, filter, any, All, All-filter,
  length, count_if, Bool-cases, inl, inr, if◌then◌else◌,
}
use mathlib.Core.List.{append-nil, append_assoc}
use ha_skywatch.Prelude.Sort.{Orders, IsOrdered, sort_by-IsOrdered, All-sort_by, count_if-sort_by}
use ha_skywatch.Python.{Float}
use ha_skywatch.Python.Result.{ok}
use ha_skywatch.Storage.Schema.{PositionRow, Database}
use ha_skywatch.Storage.Connection.{Conn, select}
use ha_skywatch.Storage.Statements.{
  Trails, empty_trails, append_point, append_points, select_positions,
}
use ha_skywatch.Storage.Repository.{fetch_trails}

-- `out.get(fid)`
unfoldable pub trail : Text → Trails → Option (List (Float × Float))
trail k [] = none
trail k ((j, points) ∷ out) = if text_eq j k then some points else trail k out

-- The points of one flight among the rows, in the rows' order.
pub points_of : Text → List PositionRow → List (Float × Float)
points_of k [] = []
points_of k (r ∷ rows) =
    let rest = points_of k rows in if text_eq r.flight_id k then (r.lon, r.lat) ∷ rest else rest

earlier-Orders : Orders (λ (a b : PositionRow). text_lt a.ts b.ts)
earlier-Orders = record {
  asym = λ x y h. ground (arith, compare_text-swap x.ts y.ts);
  not_trans = λ x y z h k. ground (
    arith,
    compare_text-swap x.ts y.ts,
    compare_text-swap y.ts z.ts,
    compare_text-swap x.ts z.ts,
    text_le_trans x.ts y.ts z.ts,
  );
}

pub select_positions-IsOrdered :
    (ids : List Text) (d : Database)
    → IsOrdered (λ (a b : PositionRow). text_lt a.ts b.ts) (select_positions ids d)
unfolding select_positions
select_positions-IsOrdered ids d = sort_by-IsOrdered _ earlier-Orders _

-- The trails with one more point for a flight that has a key.
add_point : Text → Float × Float → Trails → Trails
add_point k point [] = []
add_point k point ((j, points) ∷ out) =
    let rest = add_point k point out in
    if text_eq j k then (j, points ++ (point ∷ [])) ∷ out else (j, points) ∷ rest

append_point_lem :
    (k : Text) (point : Float × Float) (out : Trails)
    → trail k out ≢ none
    → append_point k point out ≡ ok (add_point k point out)
unfolding trail append_point add_point
append_point_lem k point [] h = absurd (h refl)
append_point_lem k point ((i, ps) ∷ out) h = ground (arith, append_point_lem k point out)

more : Float × Float → Option (List (Float × Float)) → Option (List (Float × Float))
more point none = none
more point (some ps) = some (ps ++ (point ∷ []))

trail-add_point :
    (k j : Text) (point : Float × Float) (out : Trails)
    → trail j (add_point k point out)
      ≡ (if text_eq k j then more point (trail j out) else trail j out)
unfolding trail add_point more
trail-add_point k j point [] = ground arith
trail-add_point k j point ((i, ps) ∷ out) =
    ground (arith, trail-add_point k j point out, text_eq_iff i k, text_eq_iff k j, text_eq_iff i j)

with_points : List (Float × Float) → Option (List (Float × Float)) → Option (List (Float × Float))
with_points new none = none
with_points new (some ps) = some (ps ++ new)

with_points-more :
    (point : Float × Float) (new : List (Float × Float)) (o : Option (List (Float × Float)))
    → with_points new (more point o) ≡ with_points (point ∷ new) o
unfolding with_points more
with_points-more point new none = refl
with_points-more point new (some ps) = rw append_assoc

with_points-nil : (o : Option (List (Float × Float))) → o ≡ with_points [] o
unfolding with_points
with_points-nil none = refl
with_points-nil (some ps) = rw append-nil

still_known :
    (k j : Text) (point : Float × Float) (out : Trails)
    → trail j out ≢ none
    → trail j (add_point k point out) ≢ none
unfolding more
still_known k j point out h = ground (arith, trail-add_point k j point out)

All-known :
    (k : Text) (point : Float × Float) (out : Trails) (rows : List PositionRow)
    → All (λ r. trail r.flight_id out ≢ none) rows
    → All (λ r. trail r.flight_id (add_point k point out) ≢ none) rows
All-known k point out [] h = tt
All-known k point out (r ∷ rows) (known, h) =
    (still_known k r.flight_id point out known, All-known k point out rows h)

-- One row more.
with_points-cons :
    (j : Text) (r : PositionRow) (rows : List PositionRow) (out : Trails)
    → with_points (points_of j rows) (trail j (add_point r.flight_id (r.lon, r.lat) out))
      ≡ with_points (points_of j (r ∷ rows)) (trail j out)
unfolding points_of
with_points-cons j r rows out =
    rw (trail-add_point r.flight_id j (r.lon, r.lat) out)
      (ground (arith, with_points-more (r.lon, r.lat) (points_of j rows) (trail j out)))

append_points-cons :
    (r : PositionRow) (rows : List PositionRow) (out out' : Trails)
    → append_point r.flight_id (r.lon, r.lat) out ≡ ok out'
    → append_points (r ∷ rows) out ≡ append_points rows out'
unfolding append_points
append_points-cons r rows out out' e = rw (e, append_points)

-- Every row finds its key, and the points go to their flights in the rows' order.
append_points_lem :
    (rows : List PositionRow) (out : Trails)
    → All (λ r. trail r.flight_id out ≢ none) rows
    → (out' : Trails) × (append_points rows out ≡ ok out')
      × ((j : Text) → trail j out' ≡ with_points (points_of j rows) (trail j out))
unfolding append_points
append_points_lem [] out h = (out, refl, λ j. unfold points_of in with_points-nil (trail j out))
append_points_lem (r ∷ rows) out (known, h) =
    let point : Float × Float = (r.lon, r.lat) in
    let out' = add_point r.flight_id point out in
    let (last, ends, trails) =
      append_points_lem rows out' (All-known r.flight_id point out rows h) in
    (
      last,
      append_points-cons r rows out out' (append_point_lem r.flight_id point out known) ∙ ends,
      λ j. trails j ∙ with_points-cons j r rows out,
    )

trail-filter_other :
    (fid j : Text) (out : Trails)
    → trail j (filter (λ (i, _). not (text_eq i fid)) out)
      ≡ (if text_eq fid j then none else trail j out)
unfolding trail
trail-filter_other fid j [] = ground arith
trail-filter_other fid j ((i, ps) ∷ out) =
    ground
      (arith, trail-filter_other fid j out, text_eq_iff i fid, text_eq_iff fid j, text_eq_iff i j)

trail-empty_trails :
    (ids : List Text) (j : Text)
    → trail j (empty_trails ids) ≡ (if any (text_eq j) ids then some [] else none)
unfolding trail empty_trails
trail-empty_trails [] j = refl
trail-empty_trails (fid ∷ ids) j = ground (
  arith,
  trail-empty_trails ids j,
  trail-filter_other fid j (empty_trails ids),
  text_eq_iff fid j,
  text_eq_iff j fid,
)

selected_known :
    (ids : List Text) (rows : List PositionRow)
    → All (λ r. any (text_eq r.flight_id) ids ≡ true) rows
    → All (λ r. trail r.flight_id (empty_trails ids) ≢ none) rows
selected_known ids [] h = tt
selected_known ids (r ∷ rows) (h, hs) =
    (ground (arith, trail-empty_trails ids r.flight_id), selected_known ids rows hs)

length-points_of :
    (j : Text) (rows : List PositionRow)
    → length (points_of j rows) ≡ count_if (λ r. text_eq r.flight_id j) rows
unfolding points_of
length-points_of j [] = refl
length-points_of j (r ∷ rows) = ground (arith, length-points_of j rows)

count_if-wanted :
    (ids : List Text) (j : Text) (rows : List PositionRow)
    → any (text_eq j) ids ≡ true
    → count_if (λ r. text_eq r.flight_id j) (filter (λ r. any (text_eq r.flight_id) ids) rows)
      ≡ count_if (λ r. text_eq r.flight_id j) rows
count_if-wanted ids j [] h = refl
count_if-wanted ids j (r ∷ rows) h = elim (Bool-cases (text_eq r.flight_id j)) [
  | inl same ↦
      let wanted : any (text_eq r.flight_id) ids ≡ true =
        rw ((text_eq_iff r.flight_id j).0 same) h in
      ground (arith, count_if-wanted ids j rows h)
  | inr other ↦ ground (arith, count_if-wanted ids j rows h)
]

module _ (fid : Text) (ids : List Text) (c : Conn) (no_faults : c.faults ≡ []) where
  -- If no statement fails, `fetch_trails` raises nothing, KeyError included. Its result has a key
  -- for each id that is asked for and no other, and under it the flight's points in the order of
  -- their times, as many as the table has rows of that flight.
  pub fetch_trails_lem :
      (out : Trails) × ((fetch_trails (fid ∷ ids) c).0 ≡ ok out)
      × ((j : Text)
          → trail j out ≡ (
              if any (text_eq j) (fid ∷ ids)
              then some (points_of j (select_positions (fid ∷ ids) c.working))
              else none))
      × ((j : Text)
          → any (text_eq j) (fid ∷ ids) ≡ true
          → length (points_of j (select_positions (fid ∷ ids) c.working))
            ≡ count_if (λ r. text_eq r.flight_id j) c.working.flight_positions)
      × IsOrdered
          (λ (a b : PositionRow). text_lt a.ts b.ts)
          (select_positions (fid ∷ ids) c.working)
  fetch_trails_lem =
      let all_ids = fid ∷ ids in
      let rows = select_positions all_ids c.working in
      let wanted : All (λ r. any (text_eq r.flight_id) all_ids ≡ true) rows =
        unfold select_positions in All-sort_by _ _ _ (All-filter _ c.working.flight_positions) in
      let (out, ends, trails) =
        append_points_lem rows (empty_trails all_ids) (selected_known all_ids rows wanted) in
      (
        out,
        unfold fetch_trails select in rw no_faults ends,
        λ j.
            trails j
            ∙ rw (trail-empty_trails all_ids j)
                (filled (any (text_eq j) all_ids) (points_of j rows)),
        λ j h.
            length-points_of j rows
            ∙ (unfold select_positions in
                (count_if-sort_by _ _ _ ∙ count_if-wanted all_ids j c.working.flight_positions h)),
        select_positions-IsOrdered all_ids c.working,
      )
    where
      filled :
          (b : Bool) (ps : List (Float × Float))
          → with_points ps (if b then some [] else none) ≡ (if b then some ps else none)
      filled true ps = unfold with_points in refl
      filled false ps = unfold with_points in refl
