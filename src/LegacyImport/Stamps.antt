-- ===== src/LegacyImport/Stamps.antt =====
-- legacy_import.py: rows whose times have the stored form, and the plans that `_window_plan` makes.
use mathlib.Core.Path.{subst}
use ha_skywatch.Prelude.{
  ℕ, ◌+◌, ◌-◌, ◌*◌, ◌≤◌, ◌<◌, true, false, Text, codes, text_eq, Option, some, List, ◌∷◌, ◌++◌, ◌≡◌,
  refl, sym, arith, filter, text_eq_refl, Bool-cases, inl, inr,
}
use ha_skywatch.Time.{Instant, second, end_of_time, utc_text, compare-utc_text}
use ha_skywatch.Python.Result.{ok}
use ha_skywatch.Storage.Migrations.{column_exists, all_exist}
use ha_skywatch.Storage.Migrations.Laws.{and_then_lem}
use ha_skywatch.Storage.Migrations.Photos.{ok-inj}
use ha_skywatch.LegacyImport.{text, Row, LegacyTable, columns_to_copy}
use ha_skywatch.LegacyImport.Window.{Strftime, WindowPlan, window_plan, near_in_time, between}
use ha_skywatch.LegacyImport.Dedupe.{IsPlan, IsTimed}

-- The row's time is the stored text of an instant that is not within `tolerance` seconds of the
-- end of the calendar, and SQLite's strftime moves it by the tolerance: it gives the stored texts
-- of the instants so many seconds earlier and later.
abbrev pub IsStamped : Strftime → ℕ → Text → Row → Type 0
IsStamped f tolerance time_col l =
    (t : Instant) × (l.cell time_col ≡ text (utc_text t))
    × (tolerance * second ≤ t)
    × (t + tolerance * second < end_of_time)
    × (f.earlier tolerance (utc_text t) ≡ some (utc_text (t - tolerance * second)))
    × (f.later tolerance (utc_text t) ≡ some (utc_text (t + tolerance * second)))

between_stamps :
    (t n : ℕ)
    → n * second ≤ t
    → t + n * second < end_of_time
    → between (some (utc_text (t - n * second))) (some (utc_text (t + n * second))) (utc_text t)
      ≡ true
between_stamps t n low high = ground (
  arith,
  compare-utc_text (t - n * second) t (omega arith) (omega arith),
  compare-utc_text t (t + n * second) (omega arith) (omega arith),
)

pub stamped-IsTimed :
    (f : Strftime) (plan : WindowPlan) (l : Row)
    → IsStamped f plan.tolerance_seconds plan.time_col l
    → IsTimed f plan l
unfolding near_in_time
stamped-IsTimed f plan l (t, e, low, high, back, forth) =
    let n = plan.tolerance_seconds in
    subst (λ c. near_in_time f n c c ≡ true) (sym e)
      (rw (back, forth) (between_stamps t n low high))

-- The plan's time column and tolerance are those that `_window_plan` is given.
pub record PlansFor (time_col : Text) (since until : Option Text) (tolerance : ℕ)
    (plan : WindowPlan) : Type 0 where
  pub well : IsPlan plan
  pub timed : plan.time_col ≡ time_col
  pub from_ : plan.since ≡ since
  pub to : plan.until ≡ until
  pub tolerant : plan.tolerance_seconds ≡ tolerance

first_column :
    (c : Text) (rest optional source cols : List Text)
    → columns_to_copy (c ∷ rest) optional source ≡ ok cols
    → column_exists c cols ≡ true
unfolding columns_to_copy
first_column c rest optional source cols h = elim (Bool-cases (all_exist (c ∷ rest) source)) [
  | inr missing ↦ absurd (ground (arith, h, missing))
  | inl found ↦
      let same : (c ∷ rest) ++ filter (λ col. column_exists col source) optional ≡ cols =
        ok-inj _ cols (ground (arith, h, found)) in
      subst (λ x. column_exists c x ≡ true) same (ground (arith, text_eq_refl c))
]

pub window_plan-PlansFor :
    (time_col : Text) (rest optional : List Text) (since until : Option Text) (tolerance : ℕ)
    (t : LegacyTable) (plan : WindowPlan)
    → text_eq time_col (codes "aircraft_photo") ≡ false
    → window_plan time_col (time_col ∷ rest) optional since until tolerance t ≡ ok plan
    → PlansFor time_col since until tolerance plan
unfolding window_plan
window_plan-PlansFor time_col rest optional since until tolerance t plan photo h =
    let (cols, hc, e) =
      and_then_lem (columns_to_copy (time_col ∷ rest) optional t.columns) _ plan h in
    subst (PlansFor time_col since until tolerance) (ok-inj _ plan e) (record {
      well = record {
        timed = first_column time_col rest optional t.columns cols hc;
        not_photo = photo;
      };
      timed = refl;
      from_ = refl;
      to = refl;
      tolerant = refl;
    })
