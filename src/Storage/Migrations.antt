-- ===== src/Storage/Migrations.antt =====
-- storage/migrations.py over tables of any shape: a table has its columns in order, and a row has a
-- cell for each of them. A cell that is no text and not NULL is left as it is by every statement
-- here, and is not told apart from NULL. What a migration that raises leaves behind is not modelled.
pub mod Photos
pub mod Columns
pub mod Laws
use ha_skywatch.Prelude.{
  ℕ, zero, suc, ◌+◌, ◌-◌, Bool, true, false, ◌&&◌, Option, none, some, List, [], ◌∷◌, ◌++◌, Text,
  codes, text_eq, like, drop, any, map, if◌then◌else◌,
}
use ha_skywatch.Python.Result.{Result, ok, err, operational}

pub record Table : Type 0 where
  pub columns : List Text
  pub rows : List (List (Option Text))

pub record LegacyDb : Type 0 where
  pub user_version : ℕ
  pub sightings : Option Table
  pub entries : Option Table
  pub airport_movements : Option Table
  pub flight_positions : Option Table

abbrev pub schema_version : ℕ
schema_version = 1

abbrev pub sighting_columns : List Text
sighting_columns =
    codes "id"
    ∷ codes "exit_time"
    ∷ codes "entry_time"
    ∷ codes "flight_number"
    ∷ codes "callsign"
    ∷ codes "airline"
    ∷ codes "airline_iata"
    ∷ codes "aircraft_code"
    ∷ codes "aircraft_model"
    ∷ codes "registration"
    ∷ codes "origin_iata"
    ∷ codes "origin_city"
    ∷ codes "destination_iata"
    ∷ codes "destination_city"
    ∷ codes "altitude_ft"
    ∷ codes "ground_speed_kt"
    ∷ codes "closest_km"
    ∷ codes "aircraft_photo"
    ∷ codes "tracked_by_device"
    ∷ codes "heading"
    ∷ codes "vertical_speed"
    ∷ codes "on_ground"
    ∷ []

abbrev pub entry_columns : List Text
entry_columns =
    codes "flight_id"
    ∷ codes "entry_time"
    ∷ codes "callsign"
    ∷ codes "flight_number"
    ∷ codes "aircraft_code"
    ∷ codes "aircraft_model"
    ∷ []

abbrev pub movement_columns : List Text
movement_columns =
    codes "id"
    ∷ codes "event_time"
    ∷ codes "direction"
    ∷ codes "airport_iata"
    ∷ codes "flight_number"
    ∷ codes "callsign"
    ∷ codes "airline"
    ∷ codes "airline_iata"
    ∷ codes "aircraft_code"
    ∷ codes "aircraft_model"
    ∷ codes "registration"
    ∷ codes "origin_iata"
    ∷ codes "destination_iata"
    ∷ codes "aircraft_photo"
    ∷ []

abbrev pub position_columns : List Text
position_columns = codes "flight_id" ∷ codes "ts" ∷ codes "lat" ∷ codes "lon" ∷ []

abbrev pub sighting_indexes : List Text
sighting_indexes =
    codes "exit_time"
    ∷ codes "callsign"
    ∷ codes "airline_iata"
    ∷ codes "aircraft_code"
    ∷ codes "altitude_ft"
    ∷ codes "closest_km"
    ∷ codes "origin_iata"
    ∷ codes "destination_iata"
    ∷ codes "registration"
    ∷ []

-- `_column_exists`
abbrev pub column_exists : Text → List Text → Bool
column_exists column = any (text_eq column)

abbrev pub all_exist : List Text → List Text → Bool
all_exist [] columns = true
all_exist (c ∷ wanted) columns = column_exists c columns && all_exist wanted columns

-- CREATE TABLE IF NOT EXISTS
abbrev pub create_table : List Text → Option Table → Table
create_table columns none = record { columns = columns; rows = [] }
create_table columns (some t) = t

-- CREATE INDEX IF NOT EXISTS, which raises on a column that the table does not have.
unfoldable pub create_indexes : List Text → Table → Result Table
create_indexes wanted t = if all_exist wanted t.columns then ok t else err operational

-- `_add_column_if_missing`
unfoldable pub add_column_if_missing : Text → Table → Table
add_column_if_missing column t = if column_exists column t.columns then t else record {
  columns = t.columns ++ (column ∷ []);
  rows = map (λ row. row ++ (none ∷ [])) t.rows;
}

-- The four ALTER TABLE statements.
unfoldable pub add_columns : Table → Table
unfolding add_column_if_missing
add_columns t = add_column_if_missing (codes "on_ground") (
    add_column_if_missing (codes "vertical_speed")
      (add_column_if_missing (codes "heading") (add_column_if_missing (codes "entry_time") t)))

-- `substr(aircraft_photo, 7)` where `aircraft_photo LIKE 'https:https://%'`
unfoldable pub fix_photo : Option Text → Option Text
fix_photo none = none
fix_photo (some s) = if like (codes "https:https://%") s then some (drop 6 s) else some s

-- A row with one column's cell changed.
unfoldable pub update_row :
    Text → (Option Text → Option Text) → List Text → List (Option Text) → List (Option Text)
update_row column f [] row = row
update_row column f (c ∷ columns) [] = []
update_row column f (c ∷ columns) (x ∷ row) =
    let rest = update_row column f columns row in if text_eq column c then f x ∷ row else x ∷ rest

-- The UPDATE of one table.
unfoldable pub fix_photos : Table → Result Table
unfolding update_row fix_photo
fix_photos t =
    if column_exists (codes "aircraft_photo") t.columns
    then ok
        (record t { rows = map (update_row (codes "aircraft_photo") fix_photo t.columns) t.rows })
    else err operational

abbrev pub and_then : {A B : Type 0} → Result A → (A → Result B) → Result B
and_then (ok a) f = f a
and_then (err e) f = err e

-- What the migration does to the table of sightings, and to that of movements.
unfoldable pub migrate_sightings : Option Table → Result Table
unfolding create_indexes add_columns fix_photos
migrate_sightings t =
    and_then (create_indexes sighting_indexes (create_table sighting_columns t))
      (λ t'. fix_photos (add_columns t'))

unfoldable pub migrate_movements : Option Table → Result Table
unfolding create_indexes fix_photos
migrate_movements t =
    and_then
      (create_indexes (codes "event_time" ∷ codes "airport_iata" ∷ codes "direction" ∷ [])
        (create_table movement_columns t))
      fix_photos

unfoldable pub migrate_entries : Option Table → Result Table
unfolding create_indexes
migrate_entries t = create_indexes (codes "entry_time" ∷ []) (create_table entry_columns t)

unfoldable pub migrate_positions : Option Table → Result Table
unfolding create_indexes
migrate_positions t =
    create_indexes (codes "ts" ∷ codes "flight_id" ∷ []) (create_table position_columns t)

-- `_migrate_0_to_1`; the tables do not depend on one another, so each goes through its statements.
unfoldable pub migrate_0_to_1 : LegacyDb → Result LegacyDb
unfolding migrate_sightings migrate_movements migrate_entries migrate_positions
migrate_0_to_1 d = and_then (migrate_sightings d.sightings) λ sightings.
    and_then (migrate_entries d.entries) λ entries.
      and_then (migrate_movements d.airport_movements) λ movements.
        and_then (migrate_positions d.flight_positions) λ positions. ok (record {
          user_version = d.user_version;
          sightings = some sightings;
          entries = some entries;
          airport_movements = some movements;
          flight_positions = some positions;
        })

-- `MIGRATIONS`, by the version that a migration starts from. The loop asks for no other.
abbrev pub migrations : ℕ → LegacyDb → Result LegacyDb
migrations zero d = migrate_0_to_1 d
migrations (suc n) d = err operational

-- The `while` loop, which has `steps` versions to go.
unfoldable pub climb : ℕ → ℕ → LegacyDb → Result LegacyDb
unfolding migrate_0_to_1
climb zero current d = ok d
climb (suc steps) current d =
    and_then (migrations current d)
      λ d'. climb steps (current + 1) (record d' { user_version = current + 1 })

-- The database after `run_migrations`, whose result is its `user_version`.
unfoldable pub run_migrations : LegacyDb → Result LegacyDb
unfolding climb
run_migrations d = climb (schema_version - d.user_version) d.user_version d
