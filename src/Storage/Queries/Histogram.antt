-- ===== src/Storage/Queries/Histogram.antt =====
-- `query_hour_histogram`
use ha_skywatch.Prelude.{
  ℕ, zero, suc, ◌+◌, ◌/◌, ◌%◌, ◌≤◌, ◌<◌, max, ◌≡◌, refl, ◌∙◌, ap, Bool, true, false, Option, none,
  some, List, [], ◌∷◌, arith, length, count_if, All, if◌then◌else◌, ◌==◌,
}
use native.Mathlib.Nat.{zero-add}
use ha_skywatch.Time.{Instant, hour, day}
use ha_skywatch.Python.{Platform, Zone}
use ha_skywatch.Normalizers.{parse_iso}
use ha_skywatch.Storage.Schema.{SightingRow, Database}

pub record Bucket : Type 0 where
  pub hour : ℕ
  pub n : ℕ

pub record Histogram : Type 0 where
  pub count : ℕ
  pub max_n : ℕ
  pub buckets : List Bucket

-- `counts[h] += 1`
unfoldable pub bump : ℕ → List ℕ → List ℕ
bump h [] = []
bump zero (n ∷ counts) = suc n ∷ counts
bump (suc h) (n ∷ counts) = n ∷ bump h counts

unfoldable pub sum : List ℕ → ℕ
sum [] = 0
sum (n ∷ counts) = n + sum counts

unfoldable pub maximum : List ℕ → ℕ
maximum [] = 0
maximum (n ∷ counts) = max n (maximum counts)

unfoldable pub number_buckets : ℕ → List ℕ → List Bucket
number_buckets h [] = []
number_buckets h (n ∷ counts) = record { hour = h; n = n } ∷ number_buckets (h + 1) counts

abbrev no_counts : ℕ → List ℕ
no_counts zero = []
no_counts (suc k) = 0 ∷ no_counts k

-- `dt.astimezone(tz).hour`
abbrev pub local_hour : Zone → Instant → ℕ
local_hour tz t = tz.to_wall t % day / hour

-- The body of the loop: a row whose time cannot be read is passed over.
unfoldable pub count_hour : Zone → Option Instant → List ℕ → List ℕ
unfolding bump
count_hour tz none counts = counts
count_hour tz (some t) counts = bump (local_hour tz t) counts

module _ (p : Platform) (tz : Zone) where
  -- The loop over the rows.
  unfoldable pub tally : List SightingRow → List ℕ → List ℕ
  unfolding count_hour
  tally [] counts = counts
  tally (r ∷ rows) counts = tally rows (count_hour tz (parse_iso p (some r.exit_time)) counts)

  unfoldable pub query_hour_histogram : Database → Histogram
  unfolding tally sum maximum number_buckets
  query_hour_histogram d =
      let counts = tally d.sightings (no_counts 24) in
      record { count = sum counts; max_n = maximum counts; buckets = number_buckets 0 counts }

abbrev in_hour : Zone → ℕ → Option Instant → Bool
in_hour tz h none = false
in_hour tz h (some t) = local_hour tz t == h

abbrev is_read : Option Instant → Bool
is_read none = false
is_read (some t) = true

-- The exit time of the row can be read, and lies in this local hour.
abbrev pub exits_in_hour : Platform → Zone → ℕ → SightingRow → Bool
exits_in_hour p tz h r = in_hour tz h (parse_iso p (some r.exit_time))

abbrev pub is_readable : Platform → SightingRow → Bool
is_readable p r = is_read (parse_iso p (some r.exit_time))

length-bump : (h : ℕ) (counts : List ℕ) → length (bump h counts) ≡ length counts
unfolding bump
length-bump h [] = refl
length-bump zero (n ∷ counts) = refl
length-bump (suc h) (n ∷ counts) = ap suc (length-bump h counts)

sum-bump : (h : ℕ) (counts : List ℕ) → h < length counts → sum (bump h counts) ≡ sum counts + 1
unfolding bump sum
sum-bump h [] lt = absurd (omega arith)
sum-bump zero (n ∷ counts) lt = omega arith
sum-bump (suc h) (n ∷ counts) lt = omega (arith, sum-bump h counts (omega arith))

at : List ℕ → ℕ → ℕ
at [] i = 0
at (n ∷ counts) zero = n
at (n ∷ counts) (suc i) = at counts i

at-bump :
    (h i : ℕ) (counts : List ℕ)
    → h < length counts
    → at (bump h counts) i ≡ (if h == i then at counts i + 1 else at counts i)
unfolding at bump
at-bump h i [] lt = absurd (omega arith)
at-bump zero zero (n ∷ counts) lt = ground arith
at-bump zero (suc i) (n ∷ counts) lt = ground arith
at-bump (suc h) zero (n ∷ counts) lt = ground arith
at-bump (suc h) (suc i) (n ∷ counts) lt = ground (arith, at-bump h i counts (omega arith))

local_hour_bound : (w : ℕ) → w % day / hour < 24
local_hour_bound w = omega arith

-- One row more.
count_hour_lem :
    (tz : Zone) (o : Option Instant) (counts : List ℕ)
    → length counts ≡ 24
    → (length (count_hour tz o counts) ≡ 24)
      × (sum (count_hour tz o counts) ≡ sum counts + (if is_read o then 1 else 0))
      × ((i : ℕ) → at (count_hour tz o counts) i ≡ at counts i + (if in_hour tz i o then 1 else 0))
unfolding count_hour
count_hour_lem tz none counts len = (len, omega arith, λ i. omega arith)
count_hour_lem tz (some t) counts len =
    let h = local_hour tz t in
    let bound = local_hour_bound (tz.to_wall t) in
    (
      length-bump h counts ∙ len,
      sum-bump h counts (omega arith),
      λ i. ground (arith, at-bump h i counts (omega arith)),
    )

add_up :
    (test : Bool) (a b n : ℕ)
    → a ≡ b + (if test then 1 else 0)
    → a + n ≡ b + (if test then suc n else n)
add_up true a b n e = omega arith
add_up false a b n e = omega arith

module _ (p : Platform) (tz : Zone) where
  tally_lem :
      (rows : List SightingRow) (counts : List ℕ)
      → length counts ≡ 24
      → (length (tally p tz rows counts) ≡ 24)
        × (sum (tally p tz rows counts) ≡ sum counts + count_if (is_readable p) rows)
        × ((i : ℕ)
            → at (tally p tz rows counts) i ≡ at counts i + count_if (exits_in_hour p tz i) rows)
  unfolding tally
  tally_lem [] counts len = (len, omega arith, λ i. omega arith)
  tally_lem (r ∷ rows) counts len =
      let o = parse_iso p (some r.exit_time) in
      let (len', total, hours) = count_hour_lem tz o counts len in
      let (len'', total', hours') = tally_lem rows (count_hour tz o counts) len' in
      (len'', total' ∙ add_up _ _ _ _ total, λ i. hours' i ∙ add_up _ _ _ _ (hours i))

at_zeros : (k i : ℕ) → at (no_counts k) i ≡ 0
unfolding at
at_zeros zero i = refl
at_zeros (suc k) zero = refl
at_zeros (suc k) (suc i) = at_zeros k i

All-buckets :
    (value : ℕ → ℕ) (h : ℕ) (counts : List ℕ) (bound : ℕ)
    → ((i : ℕ) → at counts i ≡ value (h + i))
    → maximum counts ≤ bound
    → All (λ (b : Bucket). (b.n ≡ value b.hour) × (b.n ≤ bound)) (number_buckets h counts)
unfolding number_buckets maximum at
All-buckets value h [] bound e m = tt
All-buckets value h (n ∷ counts) bound e m = (
  (e 0 ∙ ap value (omega arith), omega arith),
  All-buckets value (h + 1) counts bound (λ i. e (suc i) ∙ ap value (next h i)) (omega arith),
)
  where
    next : (h i : ℕ) → h + suc i ≡ h + 1 + i
    next h i = omega arith

length-number_buckets : (h : ℕ) (counts : List ℕ) → length (number_buckets h counts) ≡ length counts
unfolding number_buckets
length-number_buckets h [] = refl
length-number_buckets h (n ∷ counts) = ap suc (length-number_buckets (h + 1) counts)

-- The histogram has a bucket for each of the 24 hours; a bucket holds the number of sightings whose
-- exit was in that hour of the local day and no more than `max_n`; the count is the number of
-- sightings whose exit time can be read.
pub query_hour_histogram_lem :
    (p : Platform) (tz : Zone) (d : Database)
    → let r = query_hour_histogram p tz d in
      (length r.buckets ≡ 24)
      × (r.count ≡ count_if (is_readable p) d.sightings)
      × All
          (λ (b : Bucket).
            (b.n ≡ count_if (exits_in_hour p tz b.hour) d.sightings) × (b.n ≤ r.max_n))
          r.buckets
unfolding query_hour_histogram
query_hour_histogram_lem p tz d =
    let counts = tally p tz d.sightings (no_counts 24) in
    let (len, total, hours) = tally_lem p tz d.sightings (no_counts 24) refl in
    (
      length-number_buckets 0 counts ∙ len,
      total ∙ (unfold sum in omega arith),
      All-buckets (λ h. count_if (exits_in_hour p tz h) d.sightings) 0 counts (maximum counts)
          (λ i. hours i ∙ rw (at_zeros 24 i, zero-add, zero-add)) (omega arith),
    )
