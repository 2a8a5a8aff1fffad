-- ===== src/Tests/Upgrade.antt =====
-- The migration of a new file, and of a database whose photo URLs are doubled.
use ha_skywatch.Prelude.{
  ◌≡◌, refl, none, some, [], ◌∷◌, Text, codes, compare_text, upper_char, like, like_one, any_suffix,
  is_empty,
}
use ha_skywatch.Python.Result.{ok}
use ha_skywatch.Storage.Migrations.{
  Table, LegacyDb, sighting_columns, entry_columns, position_columns, create_indexes,
  add_column_if_missing, add_columns, fix_photo, update_row, fix_photos, migrate_sightings,
  migrate_movements, migrate_entries, migrate_positions, migrate_0_to_1, climb, run_migrations,
}
use ha_skywatch.Storage.Migrations.Laws.{run_migrations_lem}

abbrev new_file : LegacyDb
new_file = record {
  user_version = 0;
  sightings = none;
  entries = none;
  airport_movements = none;
  flight_positions = none;
}

abbrev created : Table → LegacyDb
created movements = record {
  user_version = 0;
  sightings = some (record { columns = sighting_columns; rows = [] });
  entries = some (record { columns = entry_columns; rows = [] });
  airport_movements = some movements;
  flight_positions = some (record { columns = position_columns; rows = [] });
}

-- Movements with a photo column in front, and one row.
abbrev photo_table : Text → Table
photo_table url = record {
  columns =
      codes "aircraft_photo" ∷ codes "event_time" ∷ codes "airport_iata" ∷ codes "direction" ∷ [];
  rows = (some url ∷ none ∷ none ∷ none ∷ []) ∷ [];
}

abbrev legacy : LegacyDb
legacy = record new_file { airport_movements = some (photo_table (codes "https:https://a.b/c")) }

legacy_migrated : migrate_0_to_1 legacy ≡ ok (created (photo_table (codes "https://a.b/c")))
unfolding migrate_0_to_1 migrate_sightings migrate_movements migrate_entries migrate_positions
    create_indexes add_columns add_column_if_missing fix_photos fix_photo update_row like like_one
    any_suffix is_empty upper_char compare_text
legacy_migrated = refl

abbrev upgraded : LegacyDb
upgraded = record (created (photo_table (codes "https://a.b/c"))) { user_version = 1 }

upgraded_file : run_migrations legacy ≡ ok upgraded
unfolding run_migrations climb migrate_0_to_1 migrate_sightings migrate_movements migrate_entries
    migrate_positions create_indexes add_columns add_column_if_missing fix_photos fix_photo
    update_row like like_one any_suffix is_empty upper_char compare_text
upgraded_file = refl

run_migrations_lem_example : run_migrations upgraded ≡ ok upgraded
run_migrations_lem_example = (run_migrations_lem legacy upgraded upgraded_file).1
