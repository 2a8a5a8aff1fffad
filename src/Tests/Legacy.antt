-- ===== src/Tests/Legacy.antt =====
-- A legacy file with one sighting, imported into a new database.
use ha_skywatch.Prelude.{
  none, ◌-◌, ◌+◌, ◌*◌, ◌≡◌, refl, some, [], ◌∷◌, codes, text_eq, compare_text, true, false,
  if◌then◌else◌, arith, like, like_one, any_suffix, is_empty, upper_char,
}
use ha_skywatch.Prelude.Sort.{sort_by, insert_sorted}
use ha_skywatch.Time.{second, utc_text}
use ha_skywatch.Python.Result.{ok}
use ha_skywatch.Storage.Migrations.{fix_photo}
use ha_skywatch.LegacyImport.{
  null, text, Row, LegacyFile, Target, TargetTable, legacy_sightings_columns,
  legacy_movements_columns, legacy_entries_columns, columns_to_copy, insert_rows, accepts_sighting,
  accepts_movement, is_cell, fix_cell,
}
use ha_skywatch.LegacyImport.Window.{
  Strftime, absent, to_utc_iso, window_plan, in_window, from_since, before_until, not_dup,
  is_same_event, select_row, source_expr, candidates, new_rows, commit_rows,
}
use ha_skywatch.LegacyImport.Session.{
  Session, Moment, execute, arrive, query, commit, attach, detach, begin_immediate, rollback,
}
use ha_skywatch.LegacyImport.Import.{
  Summary, counts, import_legacy_window, check_window, plan_tables, plan_table, require_table,
  require_window_tables, attempt, run_plans, stage_plans, copy_plans, count_candidates,
  stage_new_rows, commit_stage, drop_stage_table, drop_stage_tables, end_window, give_up, ordered,
}
use ha_skywatch.LegacyImport.Plans.{window_plans}
use ha_skywatch.LegacyImport.Quiet.{connect}
use ha_skywatch.LegacyImport.Spec.{run_spec}
use ha_skywatch.LegacyImport.Call.{import_spec, import_legacy_window-eq-import_spec}
use ha_skywatch.LegacyImport.Atomic.{Atomic, import_legacy_window-IsAtomic}
use ha_skywatch.LegacyImport.Twice.{import_twice}
use ha_skywatch.LegacyImport.Report.{Reports, import_legacy_window-Reports, dry_run-eq-real_run}
use ha_skywatch.Backfill.{Args, Disk, main, IsBackedUp, main-IsBackedUp}
use ha_skywatch.Tests.Fixtures.{device, ten_o_clock}

-- It moves one timestamp by two seconds, and keeps the others.
abbrev clock : Strftime
clock = record {
  earlier = λ n t. some (utc_text (ten_o_clock - n * second));
  later = λ n t. some (utc_text (ten_o_clock + n * second));
}

abbrev seen : Row
seen = record {
  id = 1;
  cell = λ c.
      if text_eq c (codes "exit_time")
      then text (utc_text ten_o_clock)
      else if text_eq c (codes "callsign")
      then text (codes "BAW123")
      else null;
}

abbrev legacy : LegacyFile
legacy = record {
  sightings = some (record { columns = codes "id" ∷ legacy_sightings_columns; rows = seen ∷ [] });
  entries = some (record { columns = legacy_entries_columns; rows = [] });
  airport_movements = some (record { columns = codes "id" ∷ legacy_movements_columns; rows = [] });
}

abbrev no_rows : TargetTable
no_rows = record { rows = []; seq = 0 }

abbrev new_target : Target
new_target = record { sightings = no_rows; entries = no_rows; airport_movements = no_rows }

abbrev one_copied : Summary
one_copied = record { sightings = counts 1 1; airport_movements = counts 0 0 }

-- The fourth statement fails.
abbrev unlucky : Session
unlucky =
    let calm : Moment = record { arrives = λ d. d; fails = false } in
    record (connect new_target) { moments = calm ∷ calm ∷ calm ∷ record calm { fails = true } ∷ [] }

first_import :
    (import_legacy_window device clock (some legacy) absent absent 2 false (connect new_target)).0
    ≡ ok one_copied
unfolding import_legacy_window to_utc_iso check_window commit attach plan_tables plan_table
    require_table require_window_tables attempt run_plans stage_plans copy_plans count_candidates
    stage_new_rows commit_stage drop_stage_table drop_stage_tables end_window give_up ordered
    execute arrive query detach begin_immediate rollback window_plan in_window from_since
    before_until not_dup is_same_event select_row source_expr candidates new_rows commit_rows
    columns_to_copy insert_rows accepts_sighting accepts_movement is_cell fix_cell fix_photo like
    like_one any_suffix is_empty upper_char sort_by insert_sorted compare_text
first_import = refl

import_legacy_window-IsAtomic_example :
    Atomic clock
      (window_plans device legacy absent absent 2)
      unlucky
      (import_legacy_window device clock (some legacy) absent absent 2 false unlucky)
import_legacy_window-IsAtomic_example =
    import_legacy_window-IsAtomic device clock legacy absent absent 2 unlucky refl

import_legacy_window-eq-import_spec_example :
    import_legacy_window device clock (some legacy) absent absent 2 false (connect new_target)
    ≡ import_spec
        (λ plans. run_spec clock plans new_target)
        device
        legacy
        absent
        absent
        2
        new_target
import_legacy_window-eq-import_spec_example =
    import_legacy_window-eq-import_spec device clock legacy absent absent 2 new_target

import_twice_example :
    import_legacy_window device clock
      (some legacy)
      absent
      absent
      2
      false
      (import_legacy_window device clock (some legacy) absent absent 2 false (connect new_target)).1
    ≡ (
      ok (record { sightings = counts 1 0; airport_movements = counts 0 0 }),
      (import_legacy_window device clock
          (some legacy)
          absent
          absent
          2
          false
          (connect new_target)).1,
    )
unfolding compare_text
import_twice_example =
    import_twice device clock legacy absent absent 2 new_target one_copied
      ((ten_o_clock, refl, omega arith, omega arith, refl, refl), tt) tt first_import

import_legacy_window-Reports_example :
    Reports device clock legacy absent absent 2 new_target
      (import_legacy_window-Reports device clock legacy absent absent 2 new_target one_copied
        first_import).0
      one_copied
      (import_legacy_window device clock
        (some legacy)
        absent
        absent
        2
        false
        (connect new_target)).1.committed
import_legacy_window-Reports_example =
    (import_legacy_window-Reports device clock legacy absent absent 2 new_target one_copied
      first_import).1

dry_run-eq-real_run_example :
    import_legacy_window device clock (some legacy) absent absent 2 true (connect new_target)
    ≡ (ok one_copied, connect new_target)
dry_run-eq-real_run_example =
    dry_run-eq-real_run device clock legacy absent absent 2 new_target one_copied first_import

abbrev arguments : Args
arguments = record {
  since = none;
  until = none;
  tolerance_seconds = none;
  backup = some (codes "/backup/sightings.db");
  dry_run = false;
}

abbrev disk : Disk
disk = record { target = new_target; files = [] }

main-IsBackedUp_example :
    IsBackedUp
      (codes "/backup/sightings.db")
      new_target
      (main device clock (some legacy) true arguments [] disk)
main-IsBackedUp_example =
    main-IsBackedUp device clock (some legacy) true arguments [] disk (codes "/backup/sightings.db")
      refl refl
