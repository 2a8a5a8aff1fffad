-- ===== src/Time.antt =====
-- What the integration uses of `datetime`: instants, `timedelta` subtraction and the two texts of
-- a timestamp, `isoformat(timespec="seconds")` in UTC and SQLite's `datetime(…)`.
pub mod Calendar
pub mod Render
pub mod Order
use Prim.Native.Nat.{compare, Ordering}
use ha_skywatch.Prelude.{ℕ, ◌*◌, ◌/◌, ◌<◌, ◌≡◌, ◌∙◌, [], Text, codes, compare_text, then_cmp, arith}
use ha_skywatch.Time.Order.{compare-stamp-civil, compare-stamp-mixed}
use ha_skywatch.Time.Calendar.{Civil, civil}
use ha_skywatch.Time.Render.{stamp}

-- Microseconds since 0001-01-01T00:00:00 UTC.
abbrev pub Instant : Type 0
Instant = ℕ

abbrev pub second : ℕ
second = 1_000_000

abbrev pub minute : ℕ
minute = 60 * second

abbrev pub hour : ℕ
hour = 60 * minute

abbrev pub day : ℕ
day = 24 * hour

-- The end of year 9999, where `datetime` ends.
abbrev pub end_of_time : Instant
end_of_time = 3652059 * day

-- A value of type `datetime`: the wall clock of a naive one, the instant of an aware one.
pub data DateTime : Type 0 where
  naive : ℕ → DateTime
  aware : Instant → DateTime

-- `dt.astimezone(UTC).isoformat(timespec="seconds")` for an aware `dt` at this instant.
unfoldable pub utc_text : Instant → Text
utc_text t = stamp (civil (t / second)) b'T' (codes "+00:00")

-- SQLite's `datetime(t)`
unfoldable pub sqlite_text : Instant → Text
sqlite_text t = stamp (civil (t / second)) b' ' []

module _ (s t : Instant) (s_fits : s < end_of_time) (t_fits : t < end_of_time) where
  -- The stored text of a time compares as the time, in whole seconds.
  pub compare-utc_text : compare_text (utc_text s) (utc_text t) ≡ compare (s / second) (t / second)
  unfolding utc_text
  compare-utc_text =
      compare-stamp-civil (s / second) (t / second) b'T' (codes "+00:00") (omega arith)
        (omega arith)

  -- SQLite's own text of a time stands before every stored text of the same date.
  pub compare-sqlite-utc_text :
      compare_text (sqlite_text s) (utc_text t) ≡ then_cmp (compare (s / day) (t / day)) Ordering.lt
  unfolding utc_text sqlite_text
  compare-sqlite-utc_text =
      compare-stamp-mixed (s / second) (t / second) b' ' b'T' [] (codes "+00:00") (omega arith)
        (omega arith) (omega arith)
      ∙ ground arith
