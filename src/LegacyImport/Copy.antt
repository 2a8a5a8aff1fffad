-- ===== src/LegacyImport/Copy.antt =====
-- legacy_import.py: `import_legacy_db`, statement by statement.
use ha_skywatch.Prelude.{ℕ, Option, none, some, [], map}
use ha_skywatch.Python.Result.{Result, ok, err, legacy_import, Exec, pure, raise, ◌>>=◌, ◌>>◌}
use ha_skywatch.LegacyImport.{
  Row, LegacyTable, LegacyFile, TargetTable, Target, legacy_sightings_columns,
  optional_legacy_sightings_columns, legacy_movements_columns, legacy_entries_columns, copy_table,
  accepts_sighting, accepts_movement, accepts_entry,
}
use ha_skywatch.LegacyImport.Window.{source_expr}
use ha_skywatch.LegacyImport.Session.{
  Session, query, update, commit, rollback, attach, detach, suppress,
}
use ha_skywatch.LegacyImport.Import.{require_table, lift, existing}

pub record CopySummary : Type 0 where
  pub sightings_inserted : ℕ
  pub entries_inserted : ℕ
  pub movements_inserted : ℕ

abbrev pub put_sightings : Target → Result (ℕ × TargetTable) → Result (ℕ × Target)
put_sightings d (ok (n, t)) = ok (n, record d { sightings = t })
put_sightings d (err e) = err e

abbrev pub put_entries : Target → Result (ℕ × TargetTable) → Result (ℕ × Target)
put_entries d (ok (n, t)) = ok (n, record d { entries = t })
put_entries d (err e) = err e

abbrev pub put_movements : Target → Result (ℕ × TargetTable) → Result (ℕ × Target)
put_movements d (ok (n, t)) = ok (n, record d { airport_movements = t })
put_movements d (err e) = err e

-- A row after the UPDATE of the photo URLs.
abbrev fix_row : Row → Row
fix_row r = record r { cell = λ c. source_expr c r.cell }

abbrev pub fix_table : TargetTable → TargetTable
fix_table t = record t { rows = map fix_row t.rows }

-- The three calls of `_copy_table` on the target.
unfoldable pub copy_sightings : LegacyTable → Target → Result (ℕ × Target)
unfolding copy_table
copy_sightings legacy d = put_sightings d (
    copy_table accepts_sighting legacy_sightings_columns optional_legacy_sightings_columns legacy
      d.sightings)

unfoldable pub copy_entries : LegacyTable → Target → Result (ℕ × Target)
unfolding copy_table
copy_entries legacy d =
    put_entries d (copy_table accepts_entry legacy_entries_columns [] legacy d.entries)

unfoldable pub copy_movements : LegacyTable → Target → Result (ℕ × Target)
unfolding copy_table
copy_movements legacy d =
    put_movements d
      (copy_table accepts_movement legacy_movements_columns [] legacy d.airport_movements)

-- The two UPDATE statements.
unfoldable pub fix_sightings : Target → Result (Unit {0} × Target)
unfolding source_expr
fix_sightings d = ok (tt, record d { sightings = fix_table d.sightings })

unfoldable pub fix_movements : Target → Result (Unit {0} × Target)
unfolding source_expr
fix_movements d = ok (tt, record d { airport_movements = fix_table d.airport_movements })

-- A call of `_copy_table`: PRAGMA table_info, then the INSERT.
unfoldable pub copy_step :
    (LegacyTable → Target → Result (ℕ × Target)) → Option LegacyTable → Exec Session ℕ
unfolding query update
copy_step copy o = do legacy ← lift (existing o); query (λ _. tt); update (copy legacy)

-- The body of the `try` statement.
unfoldable pub copy_all : LegacyFile → Exec Session CopySummary
unfolding query update commit require_table copy_step copy_sightings copy_entries copy_movements
    fix_sightings fix_movements
copy_all legacy = do
  query (λ _. tt)
  require_table legacy.sightings
  require_table legacy.entries
  require_table legacy.airport_movements
  s ← copy_step copy_sightings legacy.sightings
  e ← copy_step copy_entries legacy.entries
  m ← copy_step copy_movements legacy.airport_movements
  update fix_sightings
  update fix_movements
  commit
  pure (record { sightings_inserted = s; entries_inserted = e; movements_inserted = m })

-- The `except` branch, or the DETACH and the summary.
unfoldable pub end_copy : Result CopySummary × Session → Result CopySummary × Session
unfolding rollback detach
end_copy (err e, s) = (err e, suppress detach (rollback s))
end_copy (ok summary, s) = (detach >> pure summary) s

unfoldable pub import_legacy_db : Option LegacyFile → Exec Session CopySummary
unfolding attach copy_all end_copy
import_legacy_db none = raise legacy_import
import_legacy_db (some legacy) = do attach; λ s. end_copy (copy_all legacy s)
