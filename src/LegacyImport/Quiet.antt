-- ===== src/LegacyImport/Quiet.antt =====
-- legacy_import.py: `import_legacy_window` on a new connection, where nothing fails and no other
-- connection writes.
use mathlib.Core.Path.{subst}
use ha_skywatch.Prelude.{ℕ, Bool, true, false, none, some, List, [], ◌≡◌, refl, sym}
use ha_skywatch.Python.Result.{Result, ok, err, Exec, pure, continue, ◌>>=◌, ◌>>◌}
use ha_skywatch.Storage.Migrations.{and_then}
use ha_skywatch.LegacyImport.{Row, Target}
use ha_skywatch.LegacyImport.Window.{Strftime, candidates, new_rows}
use ha_skywatch.LegacyImport.Session.{
  Stage, no_stage, Session, arrive, execute, begin_immediate, commit, with_working, query,
}
use ha_skywatch.LegacyImport.Import.{
  WindowTable, sightings_table, movements_table, target_table, Planned, Plans, commit_stage,
  commit_staged, set_staged, with_staged, ordered, count_candidates, stage_new_rows,
  drop_stage_table, copy_plans, stage_plans,
}
use ha_skywatch.LegacyImport.Locked.{copy_spec}

-- A session to which nothing happens.
abbrev pub quiet_session : Target → Target → Bool → Bool → Stage → Session
quiet_session d w tx att st = record {
  committed = d;
  working = w;
  in_transaction = tx;
  attached = att;
  stage = st;
  moments = [];
}

-- `sqlite3.connect`
abbrev pub connect : Target → Session
connect d = quiet_session d d false false no_stage

-- What is new for a plan in the target `d`.
abbrev pub new_here : Strftime → WindowTable → Planned → Target → Result (List Row)
new_here f table q d =
    ordered q.source (new_rows f q.plan q.source.rows (target_table table d).rows)

abbrev pub stage_of : List Row → List Row → Stage
stage_of a b = record { sightings = some a; airport_movements = some b }

-- The two stages of a run, which raises where a legacy table has no ids.
abbrev pub stages : Strftime → Plans → Target → Result Stage
stages f plans d =
    and_then (new_here f sightings_table plans.sightings d)
      λ a. and_then (new_here f movements_table plans.airport_movements d) λ b. ok (stage_of a b)

abbrev pub all_candidates : Plans → ℕ × ℕ
all_candidates plans = (
  candidates plans.sightings.plan plans.sightings.source.rows,
  candidates plans.airport_movements.plan plans.airport_movements.source.rows,
)

-- What `stage_plans` gives for the stages `r`.
abbrev pub StagedAs : Plans → Target → Result Stage → Result (ℕ × ℕ) × Session → Type 0
StagedAs plans d (ok st) o = o ≡ (ok (all_candidates plans), quiet_session d d false true st)
StagedAs plans d (err e) o = (st : Stage) × (o ≡ (err e, quiet_session d d false true st))

module _ (f : Strftime) (table : WindowTable) (q : Planned) (d : Target) (st : Stage) where
  abbrev staged_as : Result (List Row) → Result (Unit {0}) × Session
  staged_as (ok rows) = (
    ok tt,
    quiet_session d d false true (set_staged table (some rows) (set_staged table none st)),
  )
  staged_as (err e) = (err e, quiet_session d d false true (set_staged table none st))

  staged_lem :
      (r : Result (List Row))
      → with_staged f table r (quiet_session d d false true (set_staged table none st))
        ≡ staged_as r
  staged_lem (ok rows) = refl
  staged_lem (err e) = refl

  stage_quiet :
      stage_new_rows f table q.source q.plan (quiet_session d d false true st)
      ≡ staged_as (new_here f table q d)
  unfolding stage_new_rows drop_stage_table execute arrive
  stage_quiet = staged_lem (new_here f table q d)

module _ (f : Strftime) (plans : Plans) (d : Target) where
  abbrev c : ℕ
  c = candidates plans.sightings.plan plans.sightings.source.rows

  abbrev second_stage : Unit {0} → Exec Session (ℕ × ℕ)
  second_stage _ =
      count_candidates f plans.airport_movements.source plans.airport_movements.plan >>= λ c'.
      stage_new_rows f movements_table plans.airport_movements.source plans.airport_movements.plan
      >> pure (c, c')

  second_quiet :
      (a : List Row) (r : Result (List Row))
      → let o =
          staged_as f movements_table plans.airport_movements d
            (record { sightings = some a; airport_movements = none })
            r in
        StagedAs plans d
          (and_then r λ b. ok (stage_of a b))
          (continue o.0 (λ _. pure (all_candidates plans)) o.1)
  second_quiet a (ok b) = refl
  second_quiet a (err x) = (record { sightings = some a; airport_movements = none }, refl)

  first_quiet :
      (r : Result (List Row))
      → let o = staged_as f sightings_table plans.sightings d no_stage r in
        StagedAs plans d
          (and_then r λ a.
            and_then (new_here f movements_table plans.airport_movements d) λ b. ok (stage_of a b))
          (continue o.0 second_stage o.1)
  unfolding count_candidates query execute arrive
  first_quiet (err x) = (no_stage, refl)
  first_quiet (ok a) =
      subst
        (λ (o : Result (Unit {0}) × Session).
          StagedAs plans d
            (and_then (new_here f movements_table plans.airport_movements d) λ b. ok (stage_of a b))
            (continue o.0 (λ _. pure (all_candidates plans)) o.1))
        (sym (
          stage_quiet f movements_table plans.airport_movements d
            (record { sightings = some a; airport_movements = none })))
        (second_quiet a (new_here f movements_table plans.airport_movements d))

  pub stage_plans_quiet :
      StagedAs plans d
        (stages f plans d)
        (stage_plans f plans (quiet_session d d false true no_stage))
  unfolding stage_plans count_candidates query execute arrive
  stage_plans_quiet =
      subst
        (λ (o : Result (Unit {0}) × Session).
          StagedAs plans d (stages f plans d) (continue o.0 second_stage o.1))
        (sym (stage_quiet f sightings_table plans.sightings d no_stage))
        (first_quiet (new_here f sightings_table plans.sightings d))

-- What `copy_plans` gives where its transaction computes `r`.
abbrev pub CopiedAs : Target → Stage → Result ((ℕ × ℕ) × Target) → Result (ℕ × ℕ) × Session → Type 0
CopiedAs d st (ok (n, d')) o = o ≡ (ok n, quiet_session d' d' false true st)
CopiedAs d st (err e) o = (w : Target) × (o ≡ (err e, quiet_session d w true true st))

module _ (f : Strftime) (plans : Plans) (d : Target) (st : Stage) where
  abbrev second_copy : ℕ → Exec Session (ℕ × ℕ)
  second_copy i = commit_stage f movements_table plans.airport_movements.plan >>= λ i'.
      commit >>= λ _. pure (i, i')

  second_copied :
      (i : ℕ) (w : Target) (r : Result (ℕ × Target))
      → let o = with_working r (quiet_session d w true true st) in
        CopiedAs d st
          (and_then r λ (i', d'). ok ((i, i'), d'))
          (continue o.0 (λ i'. commit >>= λ _. pure (i, i')) o.1)
  unfolding commit execute arrive
  second_copied i w (ok (i', d')) = refl
  second_copied i w (err e) = (w, refl)

  first_copied :
      (r : Result (ℕ × Target))
      → let o = with_working r (quiet_session d d true true st) in
        CopiedAs d st
          (and_then r λ (i, d').
            and_then
              (commit_staged f movements_table plans.airport_movements.plan st.airport_movements d')
              λ (i', d''). ok ((i, i'), d''))
          (continue o.0 second_copy o.1)
  unfolding commit_stage execute arrive
  first_copied (err e) = (d, refl)
  first_copied (ok (i, d')) =
      second_copied i d'
        (commit_staged f movements_table plans.airport_movements.plan st.airport_movements d')

  pub copy_plans_quiet :
      CopiedAs d st (copy_spec f plans st d) (copy_plans f plans (quiet_session d d false true st))
  unfolding copy_plans begin_immediate commit_stage execute arrive
  copy_plans_quiet =
      first_copied (commit_staged f sightings_table plans.sightings.plan st.sightings d)
