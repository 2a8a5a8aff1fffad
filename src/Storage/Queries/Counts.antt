-- ===== src/Storage/Queries/Counts.antt =====
-- The counts of sightings since a time: `query_today`, `_count_since`, `query_active_1h` and
-- `query_active_24h`.
use ha_skywatch.Prelude.{
  ℕ, ◌-◌, ◌%◌, ◌∙◌, ◌*◌, ◌/◌, ◌≤◌, ◌<◌, ◌≡◌, refl, Bool, true, List, [], ◌∷◌, Text, arith, leb,
  count_if, text_le, length, count_if-le-length, text_le_trans,
}
use ha_skywatch.Time.{Instant, second, hour, day, end_of_time, utc_text, compare-utc_text}
use ha_skywatch.Python.{Zone}
use ha_skywatch.Storage.Schema.{SightingRow, Database}
use ha_skywatch.Storage.Queries.Decorate.{local_midnight, local_midnight_utc_iso}

-- SELECT COUNT(*) FROM sightings WHERE exit_time >= ?
unfoldable pub count_from : Text → List SightingRow → ℕ
count_from cutoff = count_if (λ r. text_le cutoff r.exit_time)

unfoldable pub query_today : Zone → Instant → Database → ℕ
unfolding count_from
query_today tz now d = count_from (local_midnight_utc_iso tz now) d.sightings

unfoldable pub count_since : Instant → ℕ → Database → ℕ
unfolding count_from
count_since anchor hours d = count_from (utc_text (anchor - hours * hour)) d.sightings

unfoldable pub query_active_1h : Instant → Database → ℕ
unfolding count_since
query_active_1h anchor d = count_since anchor 1 d

unfoldable pub query_active_24h : Instant → Database → ℕ
unfolding count_since
query_active_24h anchor d = count_since anchor 24 d

-- A row that `insert_sighting` wrote for an exit at `t`.
abbrev pub ExitsAt : SightingRow → Instant → Type 0
ExitsAt r t = (r.exit_time ≡ utc_text t) × (t < end_of_time)

-- The exit times of the rows, in order.
abbrev pub ExitTimes : List SightingRow → List Instant → Type 0
ExitTimes [] [] = Unit
ExitTimes (r ∷ rows) (t ∷ times) = ExitsAt r t × ExitTimes rows times
ExitTimes _ _ = ⊥

count_from-times :
    (cutoff : Instant) (rows : List SightingRow) (times : List Instant)
    → cutoff < end_of_time
    → ExitTimes rows times
    → count_from (utc_text cutoff) rows ≡ count_if (λ t. leb (cutoff / second) (t / second)) times
unfolding count_from
count_from-times cutoff [] [] h e = refl
count_from-times cutoff [] (t ∷ times) h e = absurd e
count_from-times cutoff (r ∷ rows) [] h e = absurd e
count_from-times cutoff (r ∷ rows) (t ∷ times) h ((same, fits), e) =
    rw same
      (ground (arith, compare-utc_text cutoff t h fits, count_from-times cutoff rows times h e))

-- The count since a number of hours is, of rows with known exit times, the count of the exits
-- that are not older, in whole seconds.
pub count_since-times :
    (anchor : Instant) (hours : ℕ) (d : Database) (times : List Instant)
    → anchor < end_of_time
    → ExitTimes d.sightings times
    → count_since anchor hours d
      ≡ count_if (λ t. leb ((anchor - hours * hour) / second) (t / second)) times
unfolding count_since
count_since-times anchor hours d times h e =
    count_from-times (anchor - hours * hour) d.sightings times (omega arith) e

-- Documented behaviour of a zone at the wall time `w`, which no shift of its clocks repeats: the
-- instants from that of `w` on are those whose wall time is not before `w`, and it is a whole
-- second.
pub record IsUnrepeated (tz : Zone) (w : ℕ) : Type 0 where
  pub whole : tz.from_wall w % second ≡ 0
  pub later : (t : Instant) → tz.from_wall w ≤ t → w ≤ tz.to_wall t
  pub earlier : (t : Instant) → w ≤ tz.to_wall t → tz.from_wall w ≤ t

since_midnight :
    (midnight t wall_now wall : ℕ)
    → midnight % second ≡ 0
    → (midnight ≤ t → wall_now / day * day ≤ wall)
    → (wall_now / day * day ≤ wall → midnight ≤ t)
    → leb (midnight / second) (t / second) ≡ leb (wall_now / day) (wall / day)
since_midnight midnight t wall_now wall whole later earlier =
    let aligned : leb (midnight / second) (t / second) ≡ leb midnight t = ground (arith, whole) in
    let walls : leb midnight t ≡ leb (wall_now / day * day) wall = ground (arith, later, earlier) in
    let days : leb (wall_now / day * day) wall ≡ leb (wall_now / day) (wall / day) = ground arith in
    aligned ∙ walls ∙ days

count_if_ext :
    (p q : Instant → Bool) (times : List Instant)
    → ((t : Instant) → p t ≡ q t)
    → count_if p times ≡ count_if q times
count_if_ext p q [] h = refl
count_if_ext p q (t ∷ times) h = rw (h t, count_if_ext p q times h) refl

-- Where every sighting has a known exit time, today's count is the number of the exits whose
-- local day is that of `now` or a later one, if no shift of the clocks repeats the local midnight
-- before `now`.
pub query_today-times :
    (tz : Zone) (now : Instant) (d : Database) (times : List Instant)
    → IsUnrepeated tz (tz.to_wall now / day * day)
    → tz.from_wall (tz.to_wall now / day * day) < end_of_time
    → ExitTimes d.sightings times
    → query_today tz now d ≡ count_if (λ t. leb (tz.to_wall now / day) (tz.to_wall t / day)) times
unfolding query_today local_midnight_utc_iso local_midnight
query_today-times tz now d times plain h e =
    let midnight = tz.from_wall (tz.to_wall now / day * day) in
    count_from-times midnight d.sightings times h e
    ∙ count_if_ext _ _ times λ t.
      since_midnight midnight t (tz.to_wall now) (tz.to_wall t) plain.whole (plain.later t)
        (plain.earlier t)

pub count_if_mono {ℓ} :
    {A : Type ℓ} (p q : A → Bool) (xs : List A)
    → ((x : A) → p x ≡ true → q x ≡ true)
    → count_if p xs ≤ count_if q xs
count_if_mono p q [] h = omega arith
count_if_mono p q (x ∷ xs) h = ground (arith, h x, count_if_mono p q xs h)

-- Over one anchor, what is active in the last hour is active in the last day, and both are
-- sightings.
pub active_1h-le-active_24h :
    (anchor : Instant) (d : Database)
    → anchor < end_of_time
    → (query_active_1h anchor d ≤ query_active_24h anchor d)
      × (query_active_24h anchor d ≤ length d.sightings)
unfolding query_active_1h query_active_24h
active_1h-le-active_24h anchor d h =
    let day_ago = anchor - 24 * hour in
    let hour_ago = anchor - 1 * hour in
    (
      count_if_mono _ _ d.sightings (λ r.
          text_le_trans (utc_text day_ago) (utc_text hour_ago) r.exit_time
            (ground (arith, compare-utc_text day_ago hour_ago (omega arith) (omega arith)))),
      count_if-le-length _ d.sightings,
    )
