-- ===== src/LegacyImport/Spec.antt =====
-- legacy_import.py: what a run of the plans of `import_legacy_window` comes to on a new connection, where
-- nothing fails and no other connection writes.
use ha_skywatch.Prelude.{ℕ, true, false, ◌≡◌, refl, ◌∙◌, ap, length}
use ha_skywatch.Python.Result.{Result, ok, err, Exec, pure, continue, ◌>>=◌}
use ha_skywatch.Storage.Migrations.{and_then}
use ha_skywatch.LegacyImport.{Target}
use ha_skywatch.LegacyImport.Window.{Strftime, new_rows}
use ha_skywatch.LegacyImport.Session.{
  Stage, no_stage, Session, arrive, execute, rollback, detach, query,
}
use ha_skywatch.LegacyImport.Import.{
  WindowTable, target_table, sightings_table, movements_table, Planned, Plans, Summary, counts,
  lift, copy_plans, stage_plans, run_plans, count_plans, drop_stage_tables, drop_stage_table,
  give_up, end_window, count_candidates, count_new_rows, ordered,
}
use ha_skywatch.LegacyImport.Locked.{copy_spec}
use ha_skywatch.LegacyImport.Quiet.{
  quiet_session, connect, stages, all_candidates, StagedAs, CopiedAs, stage_plans_quiet,
  copy_plans_quiet,
}

abbrev pub summary_of : ℕ × ℕ → ℕ × ℕ → Summary
summary_of c n = record { sightings = counts c.0 n.0; airport_movements = counts c.1 n.1 }

-- The summary and the target of a run, or the error and the target as it was.
abbrev pub outcome_of : Plans → Target → Result ((ℕ × ℕ) × Target) → Result Summary × Session
outcome_of plans d (ok (n, d')) = (ok (summary_of (all_candidates plans) n), connect d')
outcome_of plans d (err e) = (err e, connect d)

-- A run of the plans: the rows that are new in `d` go into `d`.
abbrev pub run_spec : Strftime → Plans → Target → Result Summary × Session
run_spec f plans d = outcome_of plans d (and_then (stages f plans d) λ st. copy_spec f plans st d)

abbrev pub with_plans :
    (Plans → Result Summary × Session) → Target → Result Plans → Result Summary × Session
with_plans run d (ok plans) = run plans
with_plans run d (err e) = (err e, connect d)

module _ (f : Strftime) (plans : Plans) (d : Target) where
  abbrev summarize : ℕ × ℕ → ℕ × ℕ → Exec Session Summary
  summarize (c, c') (i, i') =
      pure (record { sightings = counts c i; airport_movements = counts c' i' })

  after_copy :
      (st : Stage) (r : Result ((ℕ × ℕ) × Target)) (o : Result (ℕ × ℕ) × Session)
      → CopiedAs d st r o
      → end_window (continue o.0 (summarize (all_candidates plans)) o.1) ≡ outcome_of plans d r
  unfolding end_window give_up drop_stage_tables drop_stage_table detach rollback execute arrive
  after_copy st (ok (n, d')) o e =
      ap
        (λ (x : Result (ℕ × ℕ) × Session).
          end_window (continue x.0 (summarize (all_candidates plans)) x.1))
        e
  after_copy st (err x) o (w, e) =
      ap
        (λ (x : Result (ℕ × ℕ) × Session).
          end_window (continue x.0 (summarize (all_candidates plans)) x.1))
        e

  abbrev copy_and_sum : ℕ × ℕ → Exec Session Summary
  copy_and_sum c = copy_plans f plans >>= summarize c

  after_stage :
      (r : Result Stage) (o : Result (ℕ × ℕ) × Session)
      → StagedAs plans d r o
      → end_window (continue o.0 copy_and_sum o.1)
        ≡ outcome_of plans d (and_then r λ st. copy_spec f plans st d)
  unfolding end_window give_up drop_stage_tables drop_stage_table detach rollback execute arrive
  after_stage (ok st) o e =
      ap (λ (x : Result (ℕ × ℕ) × Session). end_window (continue x.0 copy_and_sum x.1)) e
      ∙ after_copy st (copy_spec f plans st d)
          (copy_plans f plans (quiet_session d d false true st)) (copy_plans_quiet f plans d st)
  after_stage (err x) o (st, e) =
      ap (λ (y : Result (ℕ × ℕ) × Session). end_window (continue y.0 copy_and_sum y.1)) e

  pub run_quiet :
      end_window (run_plans f false plans (quiet_session d d false true no_stage))
      ≡ run_spec f plans d
  unfolding run_plans
  run_quiet =
      after_stage (stages f plans d) (stage_plans f plans (quiet_session d d false true no_stage))
        (stage_plans_quiet f plans d)

  -- A dry run: the rows that are new in `d`, counted.
  abbrev pub new_count : WindowTable → Planned → Result ℕ
  new_count table q =
      ordered q.source (length (new_rows f q.plan q.source.rows (target_table table d).rows))

  abbrev pub dry_counts : Result ℕ → Result ℕ → Result Summary
  dry_counts r r' = and_then r λ i. and_then r' λ i'. ok (summary_of (all_candidates plans) (i, i'))

  abbrev pub dry_spec : Result Summary × Session
  dry_spec = (
    dry_counts (new_count sightings_table plans.sightings)
        (new_count movements_table plans.airport_movements),
    connect d,
  )

  abbrev sum_dry : ℕ → ℕ → Exec Session Summary
  sum_dry i i' = pure (summary_of (all_candidates plans) (i, i'))

  abbrev count_movements : ℕ → Exec Session Summary
  count_movements i =
      count_candidates f plans.airport_movements.source plans.airport_movements.plan >>= λ c'.
      count_new_rows f movements_table plans.airport_movements.source plans.airport_movements.plan
      >>= λ i'. pure (record {
        sightings = counts (all_candidates plans).0 i;
        airport_movements = counts c' i';
      })

  dry_second :
      (i : ℕ) (r : Result ℕ)
      → end_window ((lift r >>= sum_dry i) (quiet_session d d false true no_stage))
        ≡ (and_then r λ i'. ok (summary_of (all_candidates plans) (i, i')), connect d)
  unfolding end_window give_up drop_stage_tables drop_stage_table detach rollback execute arrive
  dry_second i (err e) = refl
  dry_second i (ok i') = refl

  dry_first :
      (r : Result ℕ)
      → end_window ((lift r >>= count_movements) (quiet_session d d false true no_stage))
        ≡ (dry_counts r (new_count movements_table plans.airport_movements), connect d)
  unfolding end_window give_up drop_stage_tables drop_stage_table detach rollback count_candidates
      count_new_rows query execute arrive
  dry_first (err e) = refl
  dry_first (ok i) = dry_second i (new_count movements_table plans.airport_movements)

  pub dry_quiet :
      end_window (run_plans f true plans (quiet_session d d false true no_stage)) ≡ dry_spec
  unfolding run_plans count_plans count_candidates count_new_rows query execute arrive
  dry_quiet = dry_first (new_count sightings_table plans.sightings)
