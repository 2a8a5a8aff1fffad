-- ===== src/Time/Order.antt =====
-- The order of timestamps as text, on which every `WHERE … >= ?` and every `ORDER BY` on a time
-- column of the storage relies.
use Prim.Native.Nat.{compare, Ordering}
use ha_skywatch.Prelude.{
  ap, ◌∙◌, ℕ, zero, suc, ◌+◌, ◌-◌, ◌*◌, ◌/◌, ◌%◌, ◌≤◌, ◌<◌, ◌≡◌, refl, Bool, true, false, ◌&&◌,
  List, [], ◌∷◌, ◌++◌, arith, leb, then_cmp, Text, compare_text, compare_text-append,
  compare_text_refl,
}
use ha_skywatch.Time.Calendar.{
  Civil, civil, year_day, year_day_lem, year_day_within, days_before_mono, is_leap, month_day,
  month_lengths,
}
use ha_skywatch.Time.Render.{pad2, pad4, stamp}

compare-year_day :
    (n k : ℕ)
    → then_cmp (compare (year_day n).0 (year_day k).0) (compare (year_day n).1 (year_day k).1)
      ≡ compare n k
compare-year_day n k = ground (
  arith,
  year_day_lem n,
  year_day_lem k,
  year_day_within n,
  year_day_within k,
  days_before_mono ((year_day n).0 + 1) (year_day k).0,
  days_before_mono ((year_day k).0 + 1) (year_day n).0,
)

month_day-le : (ls : List ℕ) (m k : ℕ) → m ≤ (month_day ls m k).0
unfolding month_day
month_day-le [] m k = omega arith
month_day-le (len ∷ ls) m k = ground (arith, month_day-le ls (m + 1) (k - len))

compare-month_day :
    (ls : List ℕ) (m j k : ℕ)
    → then_cmp
        (compare (month_day ls m j).0 (month_day ls m k).0)
        (compare (month_day ls m j).1 (month_day ls m k).1)
      ≡ compare j k
unfolding month_day
compare-month_day [] m j k = ground arith
compare-month_day (len ∷ ls) m j k = ground (
  arith,
  compare-month_day ls (m + 1) (j - len) (k - len),
  month_day-le ls (m + 1) (j - len),
  month_day-le ls (m + 1) (k - len),
)

-- The test passes at `start` and at the `len - 1` days after it.
every_day : (ℕ → Bool) → ℕ → ℕ → Bool
every_day test start zero = true
every_day test start (suc len) = test start && every_day test (suc start) len

on_day :
    (test : ℕ → Bool) (start len k : ℕ)
    → every_day test start len ≡ true
    → k < len
    → test (start + k) ≡ true
unfolding every_day
on_day test start zero k h lt = absurd (omega arith)
on_day test start (suc len) zero h lt = ap test (plus_zero start) ∙ ground arith
  where
    plus_zero : (n : ℕ) → n + 0 ≡ n
    plus_zero n = omega arith
on_day test start (suc len) (suc k) h lt =
    ap test (plus_suc start k) ∙ on_day test (suc start) len k (ground arith) (omega arith)
  where
    plus_suc : (n k : ℕ) → n + suc k ≡ suc n + k
    plus_suc n k = omega arith

-- Day 32 of December is what a year without a leap day would give its day 366.
abbrev fits : Bool → ℕ → Bool
fits leap k = let (m, d) = month_day (month_lengths leap) 1 k in leb m 12 && leb d 32

fits_table : (leap : Bool) → every_day (fits leap) 0 366 ≡ true
unfolding every_day month_day
fits_table true = refl
fits_table false = refl

month_day_bounds :
    (leap : Bool) (k : ℕ)
    → k < 366
    → ((month_day (month_lengths leap) 1 k).0 < 100)
      × ((month_day (month_lengths leap) 1 k).1 < 100)
month_day_bounds leap k h = ground (arith, on_day (fits leap) 0 366 k (fits_table leap) h)

year_day_short : (n : ℕ) → (year_day n).1 < 366
unfolding year_day
year_day_short n = ground arith

compare-pad2 : (a b : ℕ) → a < 100 → b < 100 → compare_text (pad2 a) (pad2 b) ≡ compare a b
unfolding compare_text pad2
compare-pad2 a b h k = ground arith

compare-pad4 : (a b : ℕ) → a < 10000 → b < 10000 → compare_text (pad4 a) (pad4 b) ≡ compare a b
unfolding compare_text pad4
compare-pad4 a b h k = ground arith

abbrev InRange : Civil → Type 0
InRange c =
    (c.year < 10000)
    × (c.month < 100)
    × (c.day < 100)
    × (c.hours < 100)
    × (c.minutes < 100)
    × (c.seconds < 100)

field2 :
    (a b : ℕ) (u v : Text) {o : Ordering}
    → a < 100
    → b < 100
    → compare_text u v ≡ o
    → compare_text (pad2 a ++ u) (pad2 b ++ v) ≡ then_cmp (compare a b) o
field2 a b u v h k e =
    compare_text-append (pad2 a) (pad2 b) u v (unfold pad2 in refl) ∙ rw (compare-pad2 a b h k, e)

field4 :
    (a b : ℕ) (u v : Text) {o : Ordering}
    → a < 10000
    → b < 10000
    → compare_text u v ≡ o
    → compare_text (pad4 a ++ u) (pad4 b ++ v) ≡ then_cmp (compare a b) o
field4 a b u v h k e =
    compare_text-append (pad4 a) (pad4 b) u v (unfold pad4 in refl) ∙ rw (compare-pad4 a b h k, e)

mark :
    (c d : ℕ) (u v : Text) {o : Ordering}
    → compare_text u v ≡ o
    → compare_text (c ∷ u) (d ∷ v) ≡ then_cmp (compare c d) o
unfolding compare_text
mark c d u v e = rw e

abbrev date_order : Civil → Civil → Ordering → Ordering
date_order a b rest =
    then_cmp (compare a.year b.year)
      (then_cmp (compare a.month b.month) (then_cmp (compare a.day b.day) rest))

abbrev clock_order : Civil → Civil → Ordering → Ordering
clock_order a b rest =
    then_cmp (compare a.hours b.hours)
      (then_cmp (compare a.minutes b.minutes) (then_cmp (compare a.seconds b.seconds) rest))

pub compare-stamp :
    (a b : Civil) (sep sep' : ℕ) (u v : Text)
    → InRange a
    → InRange b
    → compare_text (stamp a sep u) (stamp b sep' v)
      ≡ date_order a b (then_cmp (compare sep sep') (clock_order a b (compare_text u v)))
unfolding stamp
compare-stamp a b sep sep' u v (y, m, d, h, i, s) (y', m', d', h', i', s') = field4 _ _ _ _ y y' (
    mark _ _ _ _ (
      field2 _ _ _ _ m m' (
        mark _ _ _ _ (
          field2 _ _ _ _ d d' (
            mark _ _ _ _ (
              field2 _ _ _ _ h h'
                (mark _ _ _ _ (field2 _ _ _ _ i i' (mark _ _ _ _ (field2 _ _ _ _ s s' refl))))))))))

civil-InRange : (s : ℕ) → s < 3652059 * 86400 → InRange (civil s)
unfolding civil
civil-InRange s h =
    let n = s / 86400 in
    let bounds = month_day_bounds (is_leap (year_day n).0) (year_day n).1 (year_day_short n) in
    (year_below n (omega arith), bounds.0, bounds.1, omega arith, omega arith, omega arith)
  where
    year_below : (n : ℕ) → n < 3652059 → (year_day n).0 + 1 < 10000
    year_below n k = ground (arith, year_day_lem n)

abbrev in_year : ℕ → ℕ → ℕ × ℕ
in_year y k = month_day (month_lengths (is_leap y)) 1 k

same_year :
    (y z j k : ℕ)
    → y ≡ z
    → then_cmp (compare (in_year y j).0 (in_year z k).0) (compare (in_year y j).1 (in_year z k).1)
      ≡ compare j k
same_year y z j k e = rw e (compare-month_day (month_lengths (is_leap z)) 1 j k)

-- The dates of two moments order as their day numbers.
date_order-civil :
    (s t : ℕ) (o : Ordering)
    → date_order (civil s) (civil t) o ≡ then_cmp (compare (s / 86400) (t / 86400)) o
unfolding civil
date_order-civil s t o =
    let n = s / 86400 in
    let k = t / 86400 in
    ground (
      arith,
      compare-year_day n k,
      same_year (year_day n).0 (year_day k).0 (year_day n).1 (year_day k).1,
    )

clock_order-civil :
    (s t : ℕ) (o : Ordering)
    → clock_order (civil s) (civil t) o ≡ then_cmp (compare (s % 86400) (t % 86400)) o
unfolding civil
clock_order-civil s t o = ground arith

-- Two stamps of one form compare as the numbers of seconds they stand for.
pub compare-stamp-civil :
    (s t : ℕ) (sep : ℕ) (suffix : Text)
    → s < 3652059 * 86400
    → t < 3652059 * 86400
    → compare_text (stamp (civil s) sep suffix) (stamp (civil t) sep suffix) ≡ compare s t
compare-stamp-civil s t sep suffix h k =
    compare-stamp (civil s) (civil t) sep sep suffix suffix (civil-InRange s h) (civil-InRange t k)
    ∙ rw (date_order-civil s t, clock_order-civil s t, compare_text_refl) (ground arith)

-- Stamps whose separators differ compare by date, and within a date by the separator.
pub compare-stamp-mixed :
    (s t : ℕ) (sep sep' : ℕ) (u v : Text)
    → s < 3652059 * 86400
    → t < 3652059 * 86400
    → sep < sep'
    → compare_text (stamp (civil s) sep u) (stamp (civil t) sep' v)
      ≡ then_cmp (compare (s / 86400) (t / 86400)) Ordering.lt
compare-stamp-mixed s t sep sep' u v h k lt =
    compare-stamp (civil s) (civil t) sep sep' u v (civil-InRange s h) (civil-InRange t k)
    ∙ rw (date_order-civil s t) (ground arith)
