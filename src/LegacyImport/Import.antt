-- ===== src/LegacyImport/Import.antt =====
-- legacy_import.py: `import_legacy_window` and `import_legacy_db`, statement by statement. The
-- summary is without `write_lock_ms`, which a clock measures.
use ha_skywatch.Prelude.{
  ℕ, Bool, true, false, Option, none, some, List, [], Text, codes, text_lt, length, if◌then◌else◌,
}
use ha_skywatch.Prelude.Int.{ℤ, sub_ℕ}
use ha_skywatch.Python.{Platform}
use ha_skywatch.Python.Result.{
  Result, ok, err, legacy_import, operational, Exec, pure, raise, ◌>>=◌, ◌>>◌,
}
use ha_skywatch.Storage.Migrations.{column_exists}
use ha_skywatch.LegacyImport.{
  Row, LegacyTable, LegacyFile, TargetTable, Target, legacy_sightings_columns,
  optional_legacy_sightings_columns, legacy_movements_columns, accepts_sighting, accepts_movement,
}
use ha_skywatch.LegacyImport.Window.{
  Bound, Strftime, to_utc_iso, WindowPlan, window_plan, candidates, new_rows, commit_rows,
}
use ha_skywatch.LegacyImport.Session.{
  Stage, Session, query, execute, begin_immediate, commit, rollback, attach, detach, suppress, view,
  with_working,
}

-- The two tables of `_WINDOW_TABLES`.
pub data WindowTable : Type 0 where
  sightings_table movements_table : WindowTable

abbrev pub legacy_table : WindowTable → LegacyFile → Option LegacyTable
legacy_table sightings_table f = f.sightings
legacy_table movements_table f = f.airport_movements

abbrev pub target_table : WindowTable → Target → TargetTable
target_table sightings_table d = d.sightings
target_table movements_table d = d.airport_movements

abbrev pub set_target_table : WindowTable → TargetTable → Target → Target
set_target_table sightings_table t d = record d { sightings = t }
set_target_table movements_table t d = record d { airport_movements = t }

abbrev pub staged : WindowTable → Stage → Option (List Row)
staged sightings_table s = s.sightings
staged movements_table s = s.airport_movements

abbrev pub set_staged : WindowTable → Option (List Row) → Stage → Stage
set_staged sightings_table rows s = record s { sightings = rows }
set_staged movements_table rows s = record s { airport_movements = rows }

abbrev pub accepts_row : WindowTable → List Row → Row → Bool
accepts_row sightings_table = accepts_sighting
accepts_row movements_table = accepts_movement

abbrev pub lift : {A : Type 0} → Result A → Exec Session A
lift r s = (r, s)

-- A table that the code has found to be there.
abbrev pub existing : Option LegacyTable → Result LegacyTable
existing none = err operational
existing (some t) = ok t

-- `_require_tables`, at the table's turn in the loop.
unfoldable pub require_table : Option LegacyTable → Exec Session (Unit {0})
require_table none = raise legacy_import
require_table (some t) = pure tt

unfoldable pub require_window_tables : LegacyFile → Exec Session (Unit {0})
unfolding require_table
require_window_tables legacy = do
  query (λ _. tt)
  require_table legacy.sightings
  require_table legacy.airport_movements

-- The counts of one table.
pub record Counts : Type 0 where
  pub candidates : ℕ
  pub inserted : ℕ
  pub skipped : ℤ

pub record Summary : Type 0 where
  pub sightings : Counts
  pub airport_movements : Counts

abbrev pub counts : ℕ → ℕ → Counts
counts c i = record { candidates = c; inserted = i; skipped = sub_ℕ c i }

-- A SELECT with ORDER BY l.id, which raises where the legacy table has no such column.
unfoldable pub ordered : {A : Type 0} → LegacyTable → A → Result A
ordered legacy a = if column_exists (codes "id") legacy.columns then ok a else err operational

-- `_drop_stage_tables` for one of the plans.
unfoldable pub drop_stage_table : WindowTable → Exec Session (Unit {0})
unfolding execute
drop_stage_table table = execute (λ s. (ok tt, record s { stage = set_staged table none s.stage }))

module _ (f : Strftime) where
  -- The steps of the second loop for one table: the count of the candidates, then that of the new
  -- rows, or the new rows staged.
  unfoldable pub count_candidates : LegacyTable → WindowPlan → Exec Session ℕ
  unfolding query
  count_candidates legacy plan = query (λ _. candidates plan legacy.rows)

  unfoldable pub count_new_rows : WindowTable → LegacyTable → WindowPlan → Exec Session ℕ
  unfolding execute ordered
  count_new_rows table legacy plan = execute λ s.
      (ordered legacy (length (new_rows f plan legacy.rows (target_table table (view s)).rows)), s)

  abbrev pub with_staged : WindowTable → Result (List Row) → Session → Result (Unit {0}) × Session
  with_staged table (ok rows) s = (ok tt, record s { stage = set_staged table (some rows) s.stage })
  with_staged table (err e) s = (err e, s)

  -- CREATE TEMP TABLE … AS
  abbrev pub fill_stage :
      WindowTable → LegacyTable → WindowPlan → Session → Result (Unit {0}) × Session
  fill_stage table legacy plan s =
      with_staged table
        (ordered legacy (new_rows f plan legacy.rows (target_table table (view s)).rows)) s

  unfoldable pub stage_new_rows : WindowTable → LegacyTable → WindowPlan → Exec Session (Unit {0})
  unfolding execute ordered drop_stage_table
  stage_new_rows table legacy plan = do
    drop_stage_table table
    execute (fill_stage table legacy plan)

  abbrev pub put_back : WindowTable → Target → Result (ℕ × TargetTable) → Result (ℕ × Target)
  put_back table d (ok (n, t)) = ok (n, set_target_table table t d)
  put_back table d (err e) = err e

  -- `commit_sql` of a plan, on the rows of its stage table.
  abbrev pub commit_staged :
      WindowTable → WindowPlan → Option (List Row) → Target → Result (ℕ × Target)
  commit_staged table plan none d = err operational
  commit_staged table plan (some rows) d =
      put_back table d (commit_rows f plan (accepts_row table) rows (target_table table d))

  unfoldable pub commit_stage : WindowTable → WindowPlan → Exec Session ℕ
  unfolding execute
  commit_stage table plan =
      execute λ s. with_working (commit_staged table plan (staged table s.stage) (view s)) s

-- The plan of a table, with the table that it reads.
pub record Planned : Type 0 where
  pub plan : WindowPlan
  pub source : LegacyTable

pub record Plans : Type 0 where
  pub sightings : Planned
  pub airport_movements : Planned

-- The check of the two bounds, which compares their texts.
unfoldable pub check_window : Option Text → Option Text → Result (Unit {0})
check_window (some since) (some until) = if text_lt since until then ok tt else err legacy_import
check_window _ _ = ok tt

-- One element of the list `plans`.
unfoldable pub plan_table :
    Text
    → List Text
    → List Text
    → Option Text
    → Option Text
    → ℕ
    → Option LegacyTable
    → Exec Session Planned
unfolding query
plan_table time_col required optional since until tolerance o = do
  source ← lift (existing o)
  query (λ _. tt)
  plan ← lift (window_plan time_col required optional since until tolerance source)
  pure (record { plan = plan; source = source })

unfoldable pub plan_tables : LegacyFile → Option Text → Option Text → ℕ → Exec Session Plans
unfolding plan_table require_window_tables
plan_tables legacy since until tolerance = do
  require_window_tables legacy
  sightings ←
      plan_table (codes "exit_time") legacy_sightings_columns optional_legacy_sightings_columns
        since until tolerance legacy.sightings
  airport_movements ←
      plan_table (codes "event_time") legacy_movements_columns [] since until tolerance
        legacy.airport_movements
  pure (record { sightings = sightings; airport_movements = airport_movements })

module _ (f : Strftime) where
  -- The second loop and the summary of a dry run.
  unfoldable pub count_plans : Plans → Exec Session Summary
  unfolding count_candidates count_new_rows
  count_plans plans = do
    c ← count_candidates f plans.sightings.source plans.sightings.plan
    i ← count_new_rows f sightings_table plans.sightings.source plans.sightings.plan
    c' ← count_candidates f plans.airport_movements.source plans.airport_movements.plan
    i' ←
        count_new_rows f movements_table plans.airport_movements.source plans.airport_movements.plan
    pure (record { sightings = counts c i; airport_movements = counts c' i' })

  -- The second loop of a real run: the two counts of candidates.
  unfoldable pub stage_plans : Plans → Exec Session (ℕ × ℕ)
  unfolding count_candidates stage_new_rows
  stage_plans plans = do
    c ← count_candidates f plans.sightings.source plans.sightings.plan
    stage_new_rows f sightings_table plans.sightings.source plans.sightings.plan
    c' ← count_candidates f plans.airport_movements.source plans.airport_movements.plan
    stage_new_rows f movements_table plans.airport_movements.source plans.airport_movements.plan
    pure (c, c')

  -- The transaction that copies the staged rows: the two row counts.
  unfoldable pub copy_plans : Plans → Exec Session (ℕ × ℕ)
  unfolding begin_immediate commit_stage commit
  copy_plans plans = do
    begin_immediate
    i ← commit_stage f sightings_table plans.sightings.plan
    i' ← commit_stage f movements_table plans.airport_movements.plan
    commit
    pure (i, i')

  unfoldable pub run_plans : Bool → Plans → Exec Session Summary
  unfolding count_plans stage_plans copy_plans
  run_plans true plans = count_plans plans
  run_plans false plans = do
    (c, c') ← stage_plans plans
    (i, i') ← copy_plans plans
    pure (record { sightings = counts c i; airport_movements = counts c' i' })

-- `_drop_stage_tables` for the two plans.
unfoldable pub drop_stage_tables : Session → Session
unfolding drop_stage_table
drop_stage_tables s =
    suppress (drop_stage_table movements_table) (suppress (drop_stage_table sightings_table) s)

-- The `except` branch up to the DETACH; `planned` says whether `plans` was set.
unfoldable pub give_up : Bool → Session → Session
unfolding rollback drop_stage_tables detach
give_up planned s =
    let back = if s.in_transaction then rollback s else s in
    suppress detach (if planned then drop_stage_tables back else back)

-- What follows the `try` statement, or its `except` branch.
unfoldable pub end_window : Result Summary × Session → Result Summary × Session
unfolding give_up drop_stage_tables detach
end_window (err e, s) = (err e, give_up true s)
end_window (ok summary, s) = (detach >> pure summary) (drop_stage_tables s)

-- The `try` statement and the rest, after the ATTACH.
unfoldable pub attempt : Strftime → Bool → Result Plans × Session → Result Summary × Session
unfolding give_up end_window run_plans
attempt f dry_run (err e, s) = (err e, give_up false s)
attempt f dry_run (ok plans, s) = end_window (run_plans f dry_run plans s)

module _ (p : Platform) (f : Strftime) where
  -- `none` for a file that does not exist.
  unfoldable pub import_legacy_window :
      Option LegacyFile → Bound → Bound → ℕ → Bool → Exec Session Summary
  unfolding to_utc_iso check_window commit attach plan_tables attempt
  import_legacy_window none since until tolerance dry_run = raise legacy_import
  import_legacy_window (some legacy) since until tolerance dry_run = do
    since_iso ← lift (to_utc_iso p since)
    until_iso ← lift (to_utc_iso p until)
    lift (check_window since_iso until_iso)
    commit
    attach
    λ s. attempt f dry_run (plan_tables legacy since_iso until_iso tolerance s)
