-- ===== src/LegacyImport/Call.antt =====
-- legacy_import.py: a call of `import_legacy_window` on a new connection, where nothing fails and
-- no other connection writes.
use ha_skywatch.Prelude.{
  ℕ, Bool, true, false, Text, Option, none, some, List, [], ◌≡◌, refl, ◌∙◌, ap, codes,
}
use ha_skywatch.Python.{Platform}
use ha_skywatch.Python.Result.{Result, ok, err, Exec, pure, continue, ◌>>=◌, ◌>>◌}
use ha_skywatch.Storage.Migrations.{and_then}
use ha_skywatch.LegacyImport.{
  LegacyFile, LegacyTable, Target, legacy_sightings_columns, optional_legacy_sightings_columns,
  legacy_movements_columns,
}
use ha_skywatch.LegacyImport.Window.{Bound, Strftime, to_utc_iso, window_plan, WindowPlan}
use ha_skywatch.LegacyImport.Session.{
  no_stage, Session, arrive, execute, commit, attach, detach, query,
}
use ha_skywatch.LegacyImport.Import.{
  Planned, Plans, Summary, lift, plan_table, require_table, require_window_tables, plan_tables,
  check_window, give_up, attempt, import_legacy_window,
}
use ha_skywatch.LegacyImport.Plans.{window_plans, plans_of, planned, required}
use ha_skywatch.LegacyImport.Quiet.{quiet_session, connect}
use ha_skywatch.LegacyImport.Spec.{with_plans, run_spec, dry_spec, run_quiet, dry_quiet}

abbrev any_session : Target → Session
any_session d = quiet_session d d false true no_stage

module _ (d : Target) where
  abbrev planned_as : LegacyTable → Result WindowPlan → Result Planned
  planned_as t r = and_then r λ plan. ok (record { plan = plan; source = t })

  abbrev plan_of : LegacyTable → Result WindowPlan → Exec Session Planned
  plan_of t r = lift r >>= λ plan. pure (record { plan = plan; source = t })

  abbrev both_plans : Planned → Planned → Exec Session Plans
  both_plans ps pm = pure (record { sightings = ps; airport_movements = pm })

  plan_of_lem :
      (t : LegacyTable) (r : Result WindowPlan)
      → plan_of t r (any_session d) ≡ (planned_as t r, any_session d)
  plan_of_lem t (err e) = refl
  plan_of_lem t (ok x) = refl

  second_plan :
      (ps : Planned) (r : Result Planned)
      → (lift r >>= both_plans ps) (any_session d)
        ≡ (and_then r λ pm. ok (record { sightings = ps; airport_movements = pm }), any_session d)
  second_plan ps (err e) = refl
  second_plan ps (ok pm) = refl

  two_plans :
      (r r' : Result Planned) (m : Exec Session Planned)
      → m (any_session d) ≡ (r', any_session d)
      → (lift r >>= λ ps. m >>= both_plans ps) (any_session d) ≡ (
        and_then r λ ps. and_then r' λ pm. ok (record { sightings = ps; airport_movements = pm }),
        any_session d,
      )
  two_plans (err e) r' m h = refl
  two_plans (ok ps) r' m h =
      ap (λ (o : Result Planned × Session). continue o.0 (both_plans ps) o.1) h ∙ second_plan ps r'

module _ (since until : Option Text) (tolerance : ℕ) (d : Target) where
  plan_quiet :
      (time_col : Text) (required optional : List Text) (t : LegacyTable)
      → plan_table time_col required optional since until tolerance (some t) (any_session d)
        ≡ (planned time_col required optional since until tolerance t, any_session d)
  unfolding plan_table query execute arrive
  plan_quiet time_col required optional t =
      plan_of_lem d t (window_plan time_col required optional since until tolerance t)

  plans_quiet :
      (s e m : Option LegacyTable)
      → let legacy : LegacyFile = record { sightings = s; entries = e; airport_movements = m } in
        plan_tables legacy since until tolerance (any_session d)
        ≡ (plans_of legacy since until tolerance, any_session d)
  unfolding plan_tables require_window_tables require_table query execute arrive
  plans_quiet none e m = refl
  plans_quiet (some s) e none = refl
  plans_quiet (some s) e (some m) =
      let movements =
        plan_table (codes "event_time") legacy_movements_columns [] since until tolerance
          (some m) in
      ap (λ (o : Result Planned × Session). continue o.0 (λ ps. movements >>= both_plans d ps) o.1)
        (plan_quiet (codes "exit_time") legacy_sightings_columns optional_legacy_sightings_columns
          s)
      ∙ two_plans d _ _ movements (plan_quiet (codes "event_time") legacy_movements_columns [] m)

module _ (f : Strftime) (d : Target) where
  attempt_quiet :
      (r : Result Plans)
      → attempt f false (r, any_session d) ≡ with_plans (λ plans. run_spec f plans d) d r
  unfolding attempt give_up detach execute arrive
  attempt_quiet (err e) = refl
  attempt_quiet (ok plans) = run_quiet f plans d

  attempt_dry :
      (r : Result Plans)
      → attempt f true (r, any_session d) ≡ with_plans (λ plans. dry_spec f plans d) d r
  unfolding attempt give_up detach execute arrive
  attempt_dry (err e) = refl
  attempt_dry (ok plans) = dry_quiet f plans d

-- The call, as a function of its arguments and the target.
abbrev pub import_spec :
    (Plans → Result Summary × Session)
    → Platform
    → LegacyFile
    → Bound
    → Bound
    → ℕ
    → Target
    → Result Summary × Session
import_spec run p legacy since until tolerance d =
    with_plans run d (window_plans p legacy since until tolerance)

module _ (f : Strftime) (legacy : LegacyFile) (tolerance : ℕ) (d : Target) (dry : Bool)
    (run : Plans → Result Summary × Session)
    (runs : (r : Result Plans) → attempt f dry (r, any_session d) ≡ with_plans run d r) where
  abbrev after_check : Option Text → Option Text → Exec Session Summary
  after_check since until =
      commit >> (attach >> λ t. attempt f dry (plan_tables legacy since until tolerance t))

  checked :
      (since until : Option Text) (c : Result (Unit {0}))
      → (lift c >>= λ _. after_check since until) (connect d)
        ≡ with_plans run d (and_then c λ _. plans_of legacy since until tolerance)
  unfolding commit attach execute arrive
  checked since until (err e) = refl
  checked since until (ok a) =
      ap (attempt f dry) (
        plans_quiet since until tolerance d legacy.sightings legacy.entries
          legacy.airport_movements)
      ∙ runs (plans_of legacy since until tolerance)

  bounded :
      (since until : Result (Option Text))
      → (lift since >>= λ a. lift until >>= λ b. lift (check_window a b) >>= λ _. after_check a b)
          (connect d)
        ≡ with_plans run d (
            and_then since λ a.
              and_then until λ b. and_then (check_window a b) λ _. plans_of legacy a b tolerance)
  bounded (err e) until = refl
  bounded (ok a) (err e) = refl
  bounded (ok a) (ok b) = checked a b (check_window a b)

module _ (p : Platform) (f : Strftime) (legacy : LegacyFile) (since until : Bound) (tolerance : ℕ)
    (d : Target) where
  -- On a new connection that nothing disturbs, the import returns or raises, and leaves, what
  -- `import_spec` computes by filters on the tables, whatever the file and the bounds.
  pub import_legacy_window-eq-import_spec :
      import_legacy_window p f (some legacy) since until tolerance false (connect d)
      ≡ import_spec (λ plans. run_spec f plans d) p legacy since until tolerance d
  unfolding import_legacy_window
  import_legacy_window-eq-import_spec =
      bounded f legacy tolerance d false (λ plans. run_spec f plans d) (attempt_quiet f d)
        (to_utc_iso p since) (to_utc_iso p until)

  pub import_legacy_window_dry :
      import_legacy_window p f (some legacy) since until tolerance true (connect d)
      ≡ import_spec (λ plans. dry_spec f plans d) p legacy since until tolerance d
  unfolding import_legacy_window
  import_legacy_window_dry =
      bounded f legacy tolerance d true (λ plans. dry_spec f plans d) (attempt_dry f d)
        (to_utc_iso p since) (to_utc_iso p until)
