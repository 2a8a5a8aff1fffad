-- ===== src/Time/Calendar.antt =====
-- The proleptic Gregorian calendar, as `datetime` computes it from a day number.
use ha_skywatch.Prelude.{
  ℕ, ◌+◌, ◌-◌, ◌*◌, ◌/◌, ◌%◌, ◌≤◌, ◌<◌, ◌≡◌, Bool, ◌&&◌, ◌||◌, not, List, [], ◌∷◌, arith, ltb, ◌==◌,
  if◌then◌else◌,
}

-- The days before the year with the number y + 1.
abbrev pub days_before : ℕ → ℕ
days_before y = 365 * y + y / 4 + y / 400 - y / 100

-- The year, less 1, and the day in it, from the days since 0001-01-01.
unfoldable pub year_day : ℕ → ℕ × ℕ
year_day n =
    let a = n / 146097 in
    let r = n % 146097 in
    let b = r / 36524 in
    let q = r % 36524 in
    let c = q / 1461 in
    let p = q % 1461 in
    let d = p / 365 in
    let y = 400 * a + 100 * b + 4 * c + d in
    if (d == 4) || (b == 4) then (y - 1, 365) else (y, p % 365)

-- Whether the year y + 1 is a leap year.
unfoldable pub is_leap : ℕ → Bool
is_leap y = ((y + 1) % 4 == 0) && (not ((y + 1) % 100 == 0) || ((y + 1) % 400 == 0))

abbrev pub month_lengths : Bool → List ℕ
month_lengths leap =
    31 ∷ (if leap then 29 else 28) ∷ 31 ∷ 30 ∷ 31 ∷ 30 ∷ 31 ∷ 31 ∷ 30 ∷ 31 ∷ 30 ∷ []

-- The month and the day of the month, from month `m` on, `k` days after its first.
unfoldable pub month_day : List ℕ → ℕ → ℕ → ℕ × ℕ
month_day [] m k = (m, k + 1)
month_day (len ∷ rest) m k =
    let later = month_day rest (m + 1) (k - len) in if ltb k len then (m, k + 1) else later

pub record Civil : Type 0 where
  pub year : ℕ
  pub month : ℕ
  pub day : ℕ
  pub hours : ℕ
  pub minutes : ℕ
  pub seconds : ℕ

-- The fields of the moment that many seconds after 0001-01-01T00:00:00.
unfoldable pub civil : ℕ → Civil
civil s =
    let (y, k) = year_day (s / 86400) in
    let (m, d) = month_day (month_lengths (is_leap y)) 1 k in
    record {
      year = y + 1;
      month = m;
      day = d;
      hours = s % 86400 / 3600;
      minutes = s % 3600 / 60;
      seconds = s % 60;
    }

-- `year_day` inverts the day count.
pub year_day_lem : (n : ℕ) → days_before (year_day n).0 + (year_day n).1 ≡ n
unfolding year_day
year_day_lem n = ground arith

pub year_day_within : (n : ℕ) → n < days_before ((year_day n).0 + 1)
unfolding year_day
year_day_within n = ground arith

pub days_before_mono : (x y : ℕ) → x ≤ y → days_before x ≤ days_before y
days_before_mono x y h = omega arith
