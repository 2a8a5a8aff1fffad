-- ===== src/LegacyImport.antt =====
-- legacy_import.py: the columns that are copied, the legacy database, the tables of the target and
-- the copy of one table. A row maps each column to its cell; what it says of a name that is no
-- column of its table is never read. The legacy file does not change during an import.
pub mod Window
pub mod Session
pub mod Import
pub mod Copy
pub mod CopyAtomic
pub mod CopyWhole
pub mod Later
pub mod Dedupe
pub mod Rerun
pub mod Reading
pub mod Stages
pub mod Cleanup
pub mod Plans
pub mod Locked
pub mod Copying
pub mod Real
pub mod Atomic
pub mod Quiet
pub mod Spec
pub mod Call
pub mod Stamps
pub mod Parts
pub mod Twice
pub mod Added
pub mod Report
use ha_skywatch.Prelude.{
  ℕ, suc, ◌+◌, ltb, Bool, true, false, not, ◌&&◌, ◌||◌, ◌==◌, Option, none, some, List, [], ◌∷◌,
  ◌++◌, Text, codes, text_eq, any, filter, map, length, if◌then◌else◌,
}
use ha_skywatch.Prelude.Int.{ℤ, pos, negsuc}
use ha_skywatch.Python.{Float, finite, inf, neg_inf, nan}
use ha_skywatch.Python.Result.{Result, ok, err, legacy_import, integrity, operational}
use ha_skywatch.Storage.Migrations.{column_exists, all_exist, fix_photo, and_then}

-- An INTEGER and a REAL are both read by their value, since SQLite compares the two so.
pub data Cell : Type 0 where
  null : Cell
  number : Float → Cell
  text : Text → Cell

pub record Row : Type 0 where
  pub id : ℕ
  pub cell : Text → Cell

pub record LegacyTable : Type 0 where
  pub columns : List Text
  pub rows : List Row

pub record LegacyFile : Type 0 where
  pub sightings : Option LegacyTable
  pub entries : Option LegacyTable
  pub airport_movements : Option LegacyTable

-- A table of the target, with AUTOINCREMENT's sequence number.
pub record TargetTable : Type 0 where
  pub rows : List Row
  pub seq : ℕ

pub record Target : Type 0 where
  pub sightings : TargetTable
  pub entries : TargetTable
  pub airport_movements : TargetTable

abbrev pub legacy_sightings_columns : List Text
legacy_sightings_columns =
    codes "exit_time"
    ∷ codes "flight_number"
    ∷ codes "callsign"
    ∷ codes "airline"
    ∷ codes "airline_iata"
    ∷ codes "aircraft_code"
    ∷ codes "aircraft_model"
    ∷ codes "registration"
    ∷ codes "origin_iata"
    ∷ codes "origin_city"
    ∷ codes "destination_iata"
    ∷ codes "destination_city"
    ∷ codes "altitude_ft"
    ∷ codes "ground_speed_kt"
    ∷ codes "closest_km"
    ∷ codes "aircraft_photo"
    ∷ codes "tracked_by_device"
    ∷ []

abbrev pub optional_legacy_sightings_columns : List Text
optional_legacy_sightings_columns =
    codes "entry_time" ∷ codes "heading" ∷ codes "vertical_speed" ∷ []

abbrev pub legacy_movements_columns : List Text
legacy_movements_columns =
    codes "event_time"
    ∷ codes "direction"
    ∷ codes "airport_iata"
    ∷ codes "flight_number"
    ∷ codes "callsign"
    ∷ codes "airline"
    ∷ codes "airline_iata"
    ∷ codes "aircraft_code"
    ∷ codes "aircraft_model"
    ∷ codes "registration"
    ∷ codes "origin_iata"
    ∷ codes "destination_iata"
    ∷ codes "aircraft_photo"
    ∷ []

abbrev pub legacy_entries_columns : List Text
legacy_entries_columns =
    codes "flight_id"
    ∷ codes "entry_time"
    ∷ codes "callsign"
    ∷ codes "flight_number"
    ∷ codes "aircraft_code"
    ∷ codes "aircraft_model"
    ∷ []

unfoldable pub same_ℤ : ℤ → ℤ → Bool
same_ℤ (pos m) (pos n) = m == n
same_ℤ (negsuc m) (negsuc n) = m == n
same_ℤ _ _ = false

-- No cell holds `nan`, which SQLite stores as NULL.
unfoldable pub same_float : Float → Float → Bool
unfolding same_ℤ
same_float (finite m) (finite n) = same_ℤ m n
same_float inf inf = true
same_float neg_inf neg_inf = true
same_float nan nan = true
same_float _ _ = false

-- SQL `a IS b`
unfoldable pub is_cell : Cell → Cell → Bool
unfolding same_float
is_cell null null = true
is_cell (number a) (number b) = same_float a b
is_cell (text a) (text b) = text_eq a b
is_cell _ _ = false

abbrev pub is_null : Cell → Bool
is_null null = true
is_null _ = false

-- The columns that `_copy_table` and `_window_plan` copy, or their refusal.
unfoldable pub columns_to_copy : List Text → List Text → List Text → Result (List Text)
columns_to_copy required optional source_cols =
    if all_exist required source_cols
    then ok (required ++ filter (λ col. column_exists col source_cols) optional)
    else err legacy_import

-- The cells of an inserted row: NULL in a column that is not copied.
abbrev pub copied : List Text → (Text → Cell) → Text → Cell
copied columns cell c = if column_exists c columns then cell c else null

-- `INSERT INTO main.<table> (…) SELECT …`, which raises IntegrityError on a row that the target's
-- constraints refuse, and returns the row count.
unfoldable pub insert_rows :
    (List Row → Row → Bool) → List Text → List Row → TargetTable → Result (ℕ × TargetTable)
insert_rows accepts columns [] t = ok (0, t)
insert_rows accepts columns (l ∷ rows) t =
    let row : Row = record { id = t.seq + 1; cell = copied columns l.cell } in
    let rest =
      insert_rows accepts columns rows (record { rows = t.rows ++ (row ∷ []); seq = t.seq + 1 }) in
    if accepts t.rows row then and_then rest (λ (n, u). ok (suc n, u)) else err integrity

-- The constraints of the three tables of the target: NOT NULL, and the key of `entries`.
unfoldable pub accepts_sighting : List Row → Row → Bool
accepts_sighting rows row = not (is_null (row.cell (codes "exit_time")))

unfoldable pub accepts_movement : List Row → Row → Bool
accepts_movement rows row =
    not (is_null (row.cell (codes "event_time"))) && not (is_null (row.cell (codes "direction")))

unfoldable pub accepts_entry : List Row → Row → Bool
unfolding is_cell
accepts_entry rows row =
    not (is_null (row.cell (codes "entry_time")))
    && (is_null (row.cell (codes "flight_id"))
        || not
            (any (λ e. is_cell (e.cell (codes "flight_id")) (row.cell (codes "flight_id"))) rows))

-- `_copy_table`
unfoldable pub copy_table :
    (List Row → Row → Bool)
    → List Text
    → List Text
    → LegacyTable
    → TargetTable
    → Result (ℕ × TargetTable)
unfolding columns_to_copy insert_rows
copy_table accepts required optional legacy t =
    and_then (columns_to_copy required optional legacy.columns)
      (λ columns. insert_rows accepts columns legacy.rows t)

-- The photo fix, which SQLite's LIKE makes on texts only.
unfoldable pub fix_cell : Cell → Cell
unfolding fix_photo
fix_cell (text s) = elim (fix_photo (some s)) [ none ↦ null | some s' ↦ text s' ]
fix_cell c = c
