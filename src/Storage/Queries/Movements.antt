-- ===== src/Storage/Queries/Movements.antt =====
-- storage/queries.py: `query_movements_today`.
use ha_skywatch.Prelude.{
  ℕ, ◌+◌, ◌/◌, ◌≤◌, ◌≡◌, ◌++◌, ◌∙◌, ap, Bool, ◌&&◌, not, Option, none, some, List, [], ◌∷◌, arith,
  Text, codes, length, take, filter, count_if, text_eq, text_lt, text_le, map, min, length-take,
  length-filter, length-map,
}
use ha_skywatch.Prelude.Sort.{sort_by, length-sort_by}
use ha_skywatch.Time.{Instant, second}
use ha_skywatch.Time.Calendar.{civil}
use ha_skywatch.Time.Render.{pad2}
use ha_skywatch.Python.{Platform, Zone}
use ha_skywatch.Normalizers.{parse_iso}
use ha_skywatch.Storage.Schema.{MovementRow, Database}
use ha_skywatch.Storage.Queries.Decorate.{local_midnight_utc_iso}

abbrev pub default_movements_limit : ℕ
default_movements_limit = 30

-- A row of `query_movements_today`, with the field that it adds.
pub record LocalMovement : Type 0 where
  pub row : MovementRow
  pub open row use *
  pub event_time_local : Option Text

pub record Movements : Type 0 where
  pub count : ℕ
  pub landed : ℕ
  pub took_off : ℕ
  pub movements : List LocalMovement

abbrev pub is_landed : MovementRow → Bool
is_landed m = text_eq m.direction (codes "landed")

abbrev pub is_took_off : MovementRow → Bool
is_took_off m = text_eq m.direction (codes "took_off")

unfoldable pub movements_from : Text → ℕ → Database → List MovementRow
movements_from cutoff limit d = take limit (
    sort_by (λ (a b : MovementRow). text_lt b.event_time a.event_time)
      (filter (λ m. text_le cutoff m.event_time) d.airport_movements))

-- `strftime("%H:%M")`
unfoldable pub clock_text : ℕ → Text
unfolding pad2 civil
clock_text wall = let c = civil (wall / second) in pad2 c.hours ++ (b':' ∷ pad2 c.minutes)

module _ (p : Platform) (tz : Zone) where
  unfoldable pub localize_movement : MovementRow → LocalMovement
  unfolding clock_text
  localize_movement m = record {
    row = m;
    event_time_local = elim (parse_iso p (some m.event_time)) [
      | none ↦ none
      | some t ↦ some (clock_text (tz.to_wall t))
    ];
  }

  -- The loop counts `landed`, and `took_off` where the direction is not "landed".
  unfoldable pub query_movements_today : Instant → ℕ → Database → Movements
  unfolding movements_from localize_movement
  query_movements_today now limit d =
      let rows = movements_from (local_midnight_utc_iso tz now) limit d in
      record {
        count = length rows;
        landed = count_if is_landed rows;
        took_off = count_if (λ m. not (is_landed m) && is_took_off m) rows;
        movements = map localize_movement rows;
      }

landed_or_took_off :
    (rows : List MovementRow)
    → count_if is_landed rows + count_if (λ m. not (is_landed m) && is_took_off m) rows
      ≤ length rows
landed_or_took_off [] = omega arith
landed_or_took_off (m ∷ rows) = ground (arith, landed_or_took_off rows)

-- The landings and takeoffs counted are among the rows listed, which are today's movements as far
-- as the limit allows: the count never passes the limit.
pub query_movements_bounds :
    (p : Platform) (tz : Zone) (now : Instant) (limit : ℕ) (d : Database)
    → let r = query_movements_today p tz now limit d in
      (r.landed + r.took_off ≤ r.count)
      × (length r.movements ≡ r.count)
      × (r.count
          ≡ min limit (
              count_if
                (λ m. text_le (local_midnight_utc_iso tz now) m.event_time)
                d.airport_movements))
unfolding query_movements_today movements_from
query_movements_bounds p tz now limit d =
    let today =
      filter (λ (m : MovementRow). text_le (local_midnight_utc_iso tz now) m.event_time)
        d.airport_movements in
    (
      landed_or_took_off (movements_from (local_midnight_utc_iso tz now) limit d),
      length-map (localize_movement p tz) _,
      length-take limit _
          ∙ ap (min limit) (length-sort_by _ today ∙ length-filter _ d.airport_movements),
    )
