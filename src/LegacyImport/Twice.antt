-- ===== src/LegacyImport/Twice.antt =====
-- legacy_import.py: a second call of `import_legacy_window`, and a dry run beside a real one.
use mathlib.Core.Path.{subst}
use ha_skywatch.Prelude.{
  ℕ, true, false, Text, codes, Option, none, some, List, [], ◌∷◌, All, ◌≡◌, refl, sym, ap, ◌∙◌,
  text_eq, compare_text,
}
use ha_skywatch.Python.{Platform}
use ha_skywatch.Python.Result.{Result, ok, err}
use ha_skywatch.Storage.Migrations.{and_then}
use ha_skywatch.Storage.Migrations.Laws.{and_then_lem}
use ha_skywatch.Storage.Migrations.Photos.{ok-inj}
use ha_skywatch.LegacyImport.{
  Row, LegacyTable, LegacyFile, Target, insert_rows, legacy_sightings_columns,
  optional_legacy_sightings_columns, legacy_movements_columns,
}
use ha_skywatch.LegacyImport.Window.{
  Bound, Strftime, WindowPlan, window_plan, new_rows, commit_rows, in_window, to_utc_iso,
}
use ha_skywatch.LegacyImport.Session.{Session}
use ha_skywatch.LegacyImport.Import.{
  WindowTable, sightings_table, movements_table, target_table, accepts_row, Planned, Plans, Summary,
  counts, ordered, import_legacy_window, check_window,
}
use ha_skywatch.LegacyImport.Dedupe.{IsPlan, IsTimed}
use ha_skywatch.LegacyImport.Rerun.{append-nil, new_rows-commit_rows}
use ha_skywatch.LegacyImport.Stamps.{IsStamped, stamped-IsTimed, window_plan-PlansFor}
use ha_skywatch.LegacyImport.Plans.{window_plans, planned, required}
use ha_skywatch.LegacyImport.Locked.{copy_spec}
use ha_skywatch.LegacyImport.Quiet.{connect, stages}
use ha_skywatch.LegacyImport.Parts.{RunParts, run-RunParts}
use ha_skywatch.LegacyImport.Spec.{run_spec, outcome_of, with_plans}
use ha_skywatch.LegacyImport.Call.{import_legacy_window-eq-import_spec}

-- What a plan has to do with the call that made it.
pub record IsFor (time_col : Text) (tolerance : ℕ) (o : Option LegacyTable) (q : Planned)
    : Type 0 where
  pub source : o ≡ some q.source
  pub well : IsPlan q.plan
  pub timed : q.plan.time_col ≡ time_col
  pub tolerant : q.plan.tolerance_seconds ≡ tolerance

-- All rows of a table that the file has.
abbrev pub AllStamped : Strftime → ℕ → Text → Option LegacyTable → Type 0
AllStamped f tolerance time_col none = Unit
AllStamped f tolerance time_col (some t) = All (IsStamped f tolerance time_col) t.rows

module _ (f : Strftime) where
  all-IsTimed :
      (plan : WindowPlan) (rows : List Row)
      → All (IsStamped f plan.tolerance_seconds plan.time_col) rows
      → All (λ l. in_window plan l ≡ true → IsTimed f plan l) rows
  all-IsTimed plan [] h = tt
  all-IsTimed plan (l ∷ rows) (h, hs) =
      ((λ _. stamped-IsTimed f plan l h), all-IsTimed plan rows hs)

  -- After the copy of a plan's new rows nothing is new.
  nothing_new :
      (table : WindowTable) (q : Planned) (d d' : Target) (n : ℕ)
      → IsPlan q.plan
      → All (IsStamped f q.plan.tolerance_seconds q.plan.time_col) q.source.rows
      → commit_rows f q.plan
          (accepts_row table)
          (new_rows f q.plan q.source.rows (target_table table d).rows)
          (target_table table d)
        ≡ ok (n, target_table table d')
      → new_rows f q.plan q.source.rows (target_table table d').rows ≡ []
  nothing_new table q d d' n well stamped h =
      new_rows-commit_rows f q.plan well q.source.rows (target_table table d).rows
        (target_table table d) (target_table table d') n (accepts_row table)
        (target_table table d').rows (all-IsTimed q.plan q.source.rows stamped)
        ([], sym (append-nil (target_table table d).rows)) h
        ([], sym (append-nil (target_table table d').rows))

  IsStamped-for :
      (time_col : Text) (tolerance : ℕ) (o : Option LegacyTable) (q : Planned)
      → IsFor time_col tolerance o q
      → AllStamped f tolerance time_col o
      → All (IsStamped f q.plan.tolerance_seconds q.plan.time_col) q.source.rows
  IsStamped-for time_col tolerance o q h stamped =
      subst (λ n. All (IsStamped f n q.plan.time_col) q.source.rows) (sym h.tolerant)
        (subst (λ c. All (IsStamped f tolerance c) q.source.rows) (sym h.timed)
          (subst (AllStamped f tolerance time_col) h.source stamped))

  -- The same plans, run again.
  run_again :
      (plans : Plans) (d d' : Target) (n : ℕ × ℕ)
      → RunParts f plans d n d'
      → new_rows f plans.sightings.plan plans.sightings.source.rows d'.sightings.rows ≡ []
      → new_rows f plans.airport_movements.plan plans.airport_movements.source.rows
          d'.airport_movements.rows
        ≡ []
      → and_then (stages f plans d') (λ st. copy_spec f plans st d') ≡ ok ((0, 0), d')
  unfolding ordered commit_rows insert_rows
  run_again plans d d' n parts s m = rw (s, m, parts.sightings_ids, parts.movements_ids) refl

window-IsFor :
    (time_col : Text) (rest optional : List Text) (since until : Option Text) (tolerance : ℕ)
    (o : Option LegacyTable) (t : LegacyTable) (q : Planned)
    → text_eq time_col (codes "aircraft_photo") ≡ false
    → o ≡ some t
    → planned time_col (time_col ∷ rest) optional since until tolerance t ≡ ok q
    → IsFor time_col tolerance o q
window-IsFor time_col rest optional since until tolerance o t q photo e h =
    let (plan, hp, eq) =
      and_then_lem (window_plan time_col (time_col ∷ rest) optional since until tolerance t)
        (λ plan. ok (record { plan = plan; source = t })) q h in
    let facts = window_plan-PlansFor time_col rest optional since until tolerance t plan photo hp in
    subst (IsFor time_col tolerance o) (ok-inj _ q eq)
      (record { source = e; well = facts.well; timed = facts.timed; tolerant = facts.tolerant })

required_ok : (o : Option LegacyTable) (t : LegacyTable) → required o ≡ ok t → o ≡ some t
required_ok none t h = cc
required_ok (some u) t h = cc

exit_not_photo : text_eq (codes "exit_time") (codes "aircraft_photo") ≡ false
unfolding compare_text
exit_not_photo = refl

event_not_photo : text_eq (codes "event_time") (codes "aircraft_photo") ≡ false
unfolding compare_text
event_not_photo = refl

pub plans-IsFor :
    (p : Platform) (legacy : LegacyFile) (since until : Bound) (tolerance : ℕ) (plans : Plans)
    → window_plans p legacy since until tolerance ≡ ok plans
    → IsFor (codes "exit_time") tolerance legacy.sightings plans.sightings
      × IsFor (codes "event_time") tolerance legacy.airport_movements plans.airport_movements
plans-IsFor p legacy since until tolerance plans h =
    let (a, _, h1) = and_then_lem (to_utc_iso p since) _ plans h in
    let (b, _, h2) = and_then_lem (to_utc_iso p until) _ plans h1 in
    let (_, _, h3) = and_then_lem (check_window a b) _ plans h2 in
    let (s, hs, h4) = and_then_lem (required legacy.sightings) _ plans h3 in
    let (m, hm, h5) = and_then_lem (required legacy.airport_movements) _ plans h4 in
    let (ps, hps, h6) =
      and_then_lem
        (planned (codes "exit_time") legacy_sightings_columns optional_legacy_sightings_columns a b
          tolerance s)
        _ plans h5 in
    let (pm, hpm, h7) =
      and_then_lem (planned (codes "event_time") legacy_movements_columns [] a b tolerance m) _
        plans h6 in
    subst
      (λ (x : Plans).
        IsFor (codes "exit_time") tolerance legacy.sightings x.sightings
        × IsFor (codes "event_time") tolerance legacy.airport_movements x.airport_movements)
      (ok-inj _ plans h7)
      (
        window-IsFor (codes "exit_time") _ optional_legacy_sightings_columns a b tolerance
            legacy.sightings s ps exit_not_photo (required_ok legacy.sightings s hs) hps,
        window-IsFor (codes "event_time") _ [] a b tolerance legacy.airport_movements m pm
            event_not_photo (required_ok legacy.airport_movements m hm) hpm,
      )

module _ (p : Platform) (f : Strftime) (legacy : LegacyFile) (since until : Bound) (tolerance : ℕ)
    (d : Target) where
  abbrev call : Session → Result Summary × Session
  call = import_legacy_window p f (some legacy) since until tolerance false

  abbrev nothing_inserted : Summary → Summary
  nothing_inserted s = record {
    sightings = counts s.sightings.candidates 0;
    airport_movements = counts s.airport_movements.candidates 0;
  }

  -- The second call, by the result of the transaction of the first.
  twice_by :
      (plans : Plans) (r : Result ((ℕ × ℕ) × Target)) (summary : Summary)
      → window_plans p legacy since until tolerance ≡ ok plans
      → and_then (stages f plans d) (λ st. copy_spec f plans st d) ≡ r
      → (outcome_of plans d r).0 ≡ ok summary
      → AllStamped f tolerance (codes "exit_time") legacy.sightings
      → AllStamped f tolerance (codes "event_time") legacy.airport_movements
      → call (outcome_of plans d r).1 ≡ (ok (nothing_inserted summary), (outcome_of plans d r).1)
  twice_by plans (err e) summary w h good ss ms = cc
  twice_by plans (ok (n, d')) summary w h good ss ms =
      let (s, m) = plans-IsFor p legacy since until tolerance plans w in
      let parts = run-RunParts f plans d n d' h in
      let s_nothing =
        nothing_new f sightings_table plans.sightings d d' n.0 s.well
          (IsStamped-for f (codes "exit_time") tolerance legacy.sightings plans.sightings s ss)
          parts.sightings in
      let m_nothing =
        nothing_new f movements_table plans.airport_movements d d' n.1 m.well
          (IsStamped-for f (codes "event_time") tolerance legacy.airport_movements
            plans.airport_movements m ms)
          parts.movements in
      import_legacy_window-eq-import_spec p f legacy since until tolerance d'
      ∙ ap (with_plans (λ x. run_spec f x d') d') w
      ∙ ap (outcome_of plans d') (run_again f plans d d' n parts s_nothing m_nothing)
      ∙ ap (λ (x : Summary). (ok (nothing_inserted x), connect d')) (ok-inj _ summary good)

  abbrev Again : Summary → Result Summary × Session → Type 0
  Again summary o = o.0 ≡ ok summary → call o.1 ≡ (ok (nothing_inserted summary), o.1)

  twice_spec :
      (summary : Summary) (r : Result Plans)
      → window_plans p legacy since until tolerance ≡ r
      → AllStamped f tolerance (codes "exit_time") legacy.sightings
      → AllStamped f tolerance (codes "event_time") legacy.airport_movements
      → Again summary (with_plans (λ plans. run_spec f plans d) d r)
  twice_spec summary (err e) w ss ms good = cc
  twice_spec summary (ok plans) w ss ms good =
      twice_by plans (and_then (stages f plans d) (λ st. copy_spec f plans st d)) summary w refl
        good ss ms

  -- Where all rows of both legacy tables, also those outside the window, have times in the stored form
  -- `utc_text`, not within the tolerance of the calendar's ends, and strftime moves them by the
  -- tolerance: an import that returned on a new connection that nothing disturbs, made again, finds the
  -- same candidates, inserts none of them and leaves the target as it is.
  pub import_twice :
      (summary : Summary)
      → AllStamped f tolerance (codes "exit_time") legacy.sightings
      → AllStamped f tolerance (codes "event_time") legacy.airport_movements
      → (call (connect d)).0 ≡ ok summary
      → call (call (connect d)).1 ≡ (ok (nothing_inserted summary), (call (connect d)).1)
  import_twice summary ss ms =
      subst (Again summary)
        (sym (import_legacy_window-eq-import_spec p f legacy since until tolerance d))
        (twice_spec summary (window_plans p legacy since until tolerance) refl ss ms)
