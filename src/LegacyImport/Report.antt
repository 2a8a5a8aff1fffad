-- ===== src/LegacyImport/Report.antt =====
-- legacy_import.py: the summary of `import_legacy_window` on a new connection beside what the call
-- did, and beside a dry run.
use mathlib.Core.Path.{subst}
use ha_skywatch.Prelude.{ℕ, true, false, some, ◌≡◌, refl, sym, ap, ◌∙◌}
use ha_skywatch.Python.{Platform}
use ha_skywatch.Python.Result.{Result, ok, err}
use ha_skywatch.Storage.Migrations.{and_then}
use ha_skywatch.Storage.Migrations.Photos.{ok-inj}
use ha_skywatch.LegacyImport.{LegacyFile, Target}
use ha_skywatch.LegacyImport.Window.{Bound, Strftime, candidates}
use ha_skywatch.LegacyImport.Session.{Session}
use ha_skywatch.LegacyImport.Import.{
  sightings_table, movements_table, Plans, Summary, ordered, import_legacy_window,
}
use ha_skywatch.LegacyImport.Plans.{window_plans}
use ha_skywatch.LegacyImport.Locked.{copy_spec}
use ha_skywatch.LegacyImport.Quiet.{connect, stages, all_candidates}
use ha_skywatch.LegacyImport.Spec.{run_spec, dry_spec, summary_of, outcome_of, with_plans}
use ha_skywatch.LegacyImport.Call.{import_legacy_window-eq-import_spec, import_legacy_window_dry}
use ha_skywatch.LegacyImport.Parts.{run-RunParts}
use ha_skywatch.LegacyImport.Twice.{plans-IsFor}
use ha_skywatch.LegacyImport.Rerun.{length-new_rows}
use ha_skywatch.LegacyImport.Added.{Adds, Committed-Adds}

module _ (p : Platform) (f : Strftime) (legacy : LegacyFile) (since until : Bound) (tolerance : ℕ)
    (d : Target) where
  -- What a call did that returned `summary` and left `d'`.
  pub record Reports (plans : Plans) (summary : Summary) (d' : Target) : Type 0 where
    pub planned : window_plans p legacy since until tolerance ≡ ok plans
    pub sightings : Adds f sightings_table plans.sightings d d' summary.sightings.inserted
    pub movements :
        Adds f movements_table plans.airport_movements d d' summary.airport_movements.inserted
    pub entries : d'.entries ≡ d.entries
    pub sightings_candidates :
        summary.sightings.candidates ≡ candidates plans.sightings.plan plans.sightings.source.rows
    pub movements_candidates :
        summary.airport_movements.candidates
        ≡ candidates plans.airport_movements.plan plans.airport_movements.source.rows

  abbrev Reported : Summary → Result Summary × Session → Type 0
  Reported summary o = o.0 ≡ ok summary → (plans : Plans) × Reports plans summary o.1.committed

  report_by :
      (plans : Plans) (r : Result ((ℕ × ℕ) × Target)) (summary : Summary)
      → window_plans p legacy since until tolerance ≡ ok plans
      → and_then (stages f plans d) (λ st. copy_spec f plans st d) ≡ r
      → Reported summary (outcome_of plans d r)
  report_by plans (err e) summary w h good = cc
  report_by plans (ok (n, d')) summary w h good =
      let (s, m) = plans-IsFor p legacy since until tolerance plans w in
      let parts = run-RunParts f plans d n d' h in
      subst (λ x. (plans : Plans) × Reports plans x d') (ok-inj _ summary good)
        (
          plans,
          record {
            planned = w;
            sightings =
                Committed-Adds f sightings_table plans.sightings d d' n.0 s.well parts.sightings;
            movements =
                Committed-Adds f movements_table plans.airport_movements d d' n.1 m.well
                  parts.movements;
            entries = parts.entries;
            sightings_candidates = refl;
            movements_candidates = refl;
          },
        )

  report_spec :
      (summary : Summary) (r : Result Plans)
      → window_plans p legacy since until tolerance ≡ r
      → Reported summary (with_plans (λ plans. run_spec f plans d) d r)
  report_spec summary (err e) w good = cc
  report_spec summary (ok plans) w good =
      report_by plans (and_then (stages f plans d) (λ st. copy_spec f plans st d)) summary w refl
        good

  -- An import that returns, on a new connection that nothing disturbs, has kept the rows of the two
  -- tables and appended the new rows of the plan, in order, with the next ids and the legacy cells of
  -- the plan's columns: one for each legacy row in the window that has no row of the same event in the
  -- target, each with its time not before `since` and before `until`. It has kept the entries, and
  -- reports how many rows it inserted, no more than the candidates that it counted.
  pub import_legacy_window-Reports :
      (summary : Summary)
      → let o = import_legacy_window p f (some legacy) since until tolerance false (connect d) in
        o.0 ≡ ok summary → (plans : Plans) × Reports plans summary o.1.committed
  import_legacy_window-Reports summary =
      subst (Reported summary)
        (sym (import_legacy_window-eq-import_spec p f legacy since until tolerance d))
        (report_spec summary (window_plans p legacy since until tolerance) refl)

  dry_by :
      (plans : Plans) (n : ℕ × ℕ) (d' : Target)
      → window_plans p legacy since until tolerance ≡ ok plans
      → and_then (stages f plans d) (λ st. copy_spec f plans st d) ≡ ok (n, d')
      → dry_spec f plans d ≡ (ok (summary_of (all_candidates plans) n), connect d)
  unfolding ordered
  dry_by plans n d' w h =
      let (s, m) = plans-IsFor p legacy since until tolerance plans w in
      let parts = run-RunParts f plans d n d' h in
      let one = Committed-Adds f sightings_table plans.sightings d d' n.0 s.well parts.sightings in
      let two =
        Committed-Adds f movements_table plans.airport_movements d d' n.1 m.well parts.movements in
      let s_new =
        length-new_rows f plans.sightings.plan plans.sightings.source.rows d.sightings.rows in
      let m_new =
        length-new_rows f plans.airport_movements.plan plans.airport_movements.source.rows
          d.airport_movements.rows in
      rw (parts.sightings_ids, parts.movements_ids, s_new, m_new, sym one.exact, sym two.exact) refl

  abbrev Foretold : Summary → Result Summary × Session → Type 0
  Foretold summary o =
      o.0 ≡ ok summary
      → import_legacy_window p f (some legacy) since until tolerance true (connect d)
        ≡ (ok summary, connect d)

  Foretold-by :
      (plans : Plans) (r : Result ((ℕ × ℕ) × Target)) (summary : Summary)
      → window_plans p legacy since until tolerance ≡ ok plans
      → and_then (stages f plans d) (λ st. copy_spec f plans st d) ≡ r
      → Foretold summary (outcome_of plans d r)
  Foretold-by plans (err e) summary w h good = cc
  Foretold-by plans (ok (n, d')) summary w h good =
      import_legacy_window_dry p f legacy since until tolerance d
      ∙ ap (with_plans (λ x. dry_spec f x d) d) w
      ∙ dry_by plans n d' w h
      ∙ ap (λ (x : Result Summary). (x, connect d)) good

  Foretold-spec :
      (summary : Summary) (r : Result Plans)
      → window_plans p legacy since until tolerance ≡ r
      → Foretold summary (with_plans (λ plans. run_spec f plans d) d r)
  Foretold-spec summary (err e) w good = cc
  Foretold-spec summary (ok plans) w good =
      Foretold-by plans (and_then (stages f plans d) (λ st. copy_spec f plans st d)) summary w refl
        good

  -- Where an import on a new connection that nothing disturbs returns a summary, a dry run on such a
  -- connection to the same target returns the same summary and changes nothing.
  pub dry_run-eq-real_run :
      (summary : Summary)
      → (import_legacy_window p f (some legacy) since until tolerance false (connect d)).0
        ≡ ok summary
      → import_legacy_window p f (some legacy) since until tolerance true (connect d)
        ≡ (ok summary, connect d)
  dry_run-eq-real_run summary =
      subst (Foretold summary)
        (sym (import_legacy_window-eq-import_spec p f legacy since until tolerance d))
        (Foretold-spec summary (window_plans p legacy since until tolerance) refl)
