-- ===== src/Tests/Storage.antt =====
-- The units of work on a new database, once with a disk that fails at the third statement.
use ha_skywatch.Prelude.{
  compare_text, ◌+◌, ◌*◌, ◌≡◌, refl, false, none, some, [], ◌∷◌, codes, arith, length,
}
use ha_skywatch.Time.{aware, utc_text, hour}
use ha_skywatch.Time.Render.{stamp}
use ha_skywatch.Time.Calendar.{civil, year_day, month_day, is_leap}
use ha_skywatch.Models.{Entry}
use ha_skywatch.Normalizers.{replace_z}
use ha_skywatch.Storage.Schema.{empty_db, Database}
use ha_skywatch.Storage.Connection.{run}
use ha_skywatch.Storage.Connection.Units.{IsAtomic}
use ha_skywatch.Storage.Statements.{find_entry, select_positions}
use ha_skywatch.Storage.Repository.{record_entry, record_exit, iso, parse_entry_time}
use ha_skywatch.Storage.Repository.Spec.{
  entry_spec, exit_spec, record_entry-IsAtomic, record_exit-IsAtomic,
}
use ha_skywatch.Storage.Repository.Expiry.{find_entry-entry_spec}
use ha_skywatch.Storage.Repository.Dwell.{exit-after_entry}
use ha_skywatch.Storage.Repository.Paths.{points_of, fetch_trails_lem}
use ha_skywatch.Storage.History.{IsSound, do_jobs, do_jobs-IsSound, entry, exit, movement}
use ha_skywatch.Tests.Fixtures.{
  ten_o_clock, ten_text, device, an_entry, a_sighting, a_movement, failing, failing-IsIdle,
  empty_db-IsValid, failing-IsSound, small_db,
}

ten_o_clock_text : ten_text ≡ utc_text ten_o_clock
unfolding utc_text stamp civil year_day month_day is_leap
ten_o_clock_text = refl

reads_back : parse_entry_time device (utc_text ten_o_clock) ≡ some (aware ten_o_clock)
unfolding parse_entry_time utc_text stamp civil year_day month_day is_leap compare_text replace_z
reads_back = refl

record_exit-IsAtomic_example :
    IsAtomic
      (exit_spec device (some (codes "3a1b")) a_sighting empty_db)
      failing
      (run (record_exit device (some (codes "3a1b")) a_sighting) failing)
record_exit-IsAtomic_example =
    record_exit-IsAtomic device failing refl failing-IsIdle (some (codes "3a1b")) a_sighting

record_entry-IsAtomic_example :
    IsAtomic
      (entry_spec device ten_o_clock an_entry empty_db)
      failing
      (run (record_entry device ten_o_clock an_entry) failing)
record_entry-IsAtomic_example =
    record_entry-IsAtomic device failing refl failing-IsIdle ten_o_clock an_entry

do_jobs-IsSound_example : IsSound (
    do_jobs device
      (entry ten_o_clock an_entry
        ∷ exit (some (codes "3a1b")) a_sighting
        ∷ movement a_movement
        ∷ [])
      failing)
do_jobs-IsSound_example =
    do_jobs-IsSound device
      (entry ten_o_clock an_entry
        ∷ exit (some (codes "3a1b")) a_sighting
        ∷ movement a_movement
        ∷ [])
      failing failing-IsSound

find_entry-entry_spec_example :
    find_entry (codes "3a1b") (entry_spec device ten_o_clock an_entry empty_db).1.entries
    ≡ some ten_text
unfolding compare_text utc_text iso stamp civil year_day month_day is_leap
find_entry-entry_spec_example =
    find_entry-entry_spec device ten_o_clock an_entry empty_db (codes "3a1b") empty_db-IsValid

-- The entry recorded at ten o'clock, and another flight's at one o'clock.
abbrev ten_db : Database
ten_db = (entry_spec device ten_o_clock an_entry empty_db).1

abbrev other_entry : Entry
other_entry = record an_entry {
  flight_id = codes "77ff";
  entry_time = aware (ten_o_clock + 3 * hour);
}

exit-after_entry_example :
    find_entry (codes "3a1b") (exit_spec device (some (codes "3a1b")) a_sighting ten_db).1.entries
    ≡ none
exit-after_entry_example =
    (exit-after_entry device ten_o_clock ten_o_clock an_entry a_sighting empty_db b'3' (codes "a1b")
      empty_db-IsValid refl refl (omega arith) (omega arith) (omega arith) reads_back).1

fetch_trails_lem_example :
    length (points_of (codes "3a1b") (select_positions (codes "3a1b" ∷ []) small_db)) ≡ 1
unfolding compare_text
fetch_trails_lem_example =
    (fetch_trails_lem (codes "3a1b") []
        (record { committed = small_db; working = small_db; in_transaction = false; faults = [] })
        refl).3
      (codes "3a1b") refl
