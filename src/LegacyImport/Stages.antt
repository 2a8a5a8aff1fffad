-- ===== src/LegacyImport/Stages.antt =====
-- legacy_import.py: the rows that `import_legacy_window` has staged when the transaction begins.
use mathlib.Core.Path.{subst}
use ha_skywatch.Prelude.{ℕ, Option, none, some, List, ◌≡◌, refl, sym, ◌∙◌, ap, arith, if◌then◌else◌}
use ha_skywatch.Python.Result.{Result, ok, err}
use ha_skywatch.LegacyImport.{Row, LegacyTable}
use ha_skywatch.LegacyImport.Window.{Strftime, candidates, new_rows}
use ha_skywatch.LegacyImport.Session.{Stage, Session, view, execute, query}
use ha_skywatch.LegacyImport.Import.{
  WindowTable, sightings_table, movements_table, target_table, set_staged, Planned, Plans, ordered,
  count_candidates, stage_new_rows, stage_plans, drop_stage_table, with_staged, fill_stage,
}
use ha_skywatch.LegacyImport.Later.{Waits, Waits-trans, Keeps}
use ha_skywatch.LegacyImport.Reading.{
  Post, Both, Post-bind, Found, Post-execute, Post-mono, Post-pure,
}

module _ (f : Strftime) where
  -- The rows that are new in the target of `s`.
  abbrev pub new_in : WindowTable → Planned → Session → List Row
  new_in table q s = new_rows f q.plan q.source.rows (target_table table s.committed).rows

  abbrev Counted : Planned → Session → ℕ → Session → Type 0
  Counted q s c t = (c ≡ candidates q.plan q.source.rows) × (t.stage ≡ s.stage)

  abbrev Dropped : WindowTable → Session → Unit {0} → Session → Type 0
  Dropped table s a t = t.stage ≡ set_staged table none s.stage

  abbrev Filled : WindowTable → Planned → Session → Unit {0} → Session → Type 0
  Filled table q s a t = t.stage ≡ set_staged table (some (new_in table q s)) s.stage

  count_post : (q : Planned) → Post (count_candidates f q.source q.plan) (Found (Counted q))
  unfolding count_candidates query
  count_post q =
      Post-execute (λ s. (ok (candidates q.plan q.source.rows), s)) (Counted q)
        (λ s. (refl, refl, refl)) (λ s a idle h. (cc, refl))

  drop_post : (table : WindowTable) → Post (drop_stage_table table) (Found (Dropped table))
  unfolding drop_stage_table
  drop_post table =
      Post-execute (λ s. (ok tt, record s { stage = set_staged table none s.stage }))
        (Dropped table) (λ s. (refl, refl, refl)) (λ s a idle h. refl)

  with_staged-Keeps :
      (table : WindowTable) (r : Result (List Row)) (s : Session)
      → Keeps s (with_staged f table r s).1
  with_staged-Keeps table (ok rows) s = (refl, refl, refl)
  with_staged-Keeps table (err e) s = (refl, refl, refl)

  with_staged_ok :
      (table : WindowTable) (legacy : LegacyTable) (rows : List Row) (s : Session) (a : Unit {0})
      → (with_staged f table (ordered legacy rows) s).0 ≡ ok a
      → (with_staged f table (ordered legacy rows) s).1.stage ≡ set_staged table (some rows) s.stage
  unfolding ordered
  with_staged_ok table legacy rows s a h = ground (arith, h)

  fill_post :
      (table : WindowTable) (q : Planned)
      → Post
          (stage_new_rows f table q.source q.plan)
          (Both (Found (Dropped table)) (λ _. Found (Filled table q)))
  unfolding stage_new_rows
  fill_post table q =
      Post-bind (drop_stage_table table) (λ _. execute (fill_stage f table q.source q.plan))
        (Found (Dropped table)) (λ _. Found (Filled table q)) (drop_post table)
        λ _.
          Post-execute (fill_stage f table q.source q.plan) (Filled table q)
            (λ s.
              with_staged-Keeps table
                (ordered q.source
                  (new_rows f q.plan q.source.rows (target_table table (view s)).rows))
                s)
            (λ s a idle h.
              with_staged_ok table q.source
                (new_rows f q.plan q.source.rows (target_table table (view s)).rows) s a h
              ∙ ap
                  (λ b.
                    set_staged table
                      (some (
                        new_rows f q.plan q.source.rows
                          (target_table table (if b then s.working else s.committed)).rows))
                      s.stage)
                  idle)

  -- The rows that stand in `t` ready to be copied, and the counts of candidates: each table's
  -- rows were new at a moment between `s` and `t`, the sightings' first.
  pub record IsStaged (plans : Plans) (s : Session) (c : ℕ × ℕ) (t : Session) : Type 0 where
    pub at_sightings : Session
    pub at_movements : Session
    pub first : Waits s at_sightings
    pub second : Waits at_sightings at_movements
    pub third : Waits at_movements t
    pub sightings : t.stage.sightings ≡ some (new_in sightings_table plans.sightings at_sightings)
    pub movements :
        t.stage.airport_movements
        ≡ some (new_in movements_table plans.airport_movements at_movements)
    pub counts : c ≡ (
      candidates plans.sightings.plan plans.sightings.source.rows,
      candidates plans.airport_movements.plan plans.airport_movements.source.rows,
    )

  -- The table is staged, from what stood in the target in between.
  abbrev StagedOnce : WindowTable → Planned → Session → Unit {0} → Session → Type 0
  StagedOnce table q s a t =
      (s' : Session) × Waits s s'
      × Waits s' t
      × (t.stage ≡ set_staged table (some (new_in table q s')) s.stage)

  abbrev CountedOnce : Planned → Session → ℕ → Session → Type 0
  CountedOnce q s c t = (c ≡ candidates q.plan q.source.rows) × (t.stage ≡ s.stage)

  set_staged_twice :
      (table : WindowTable) (x y : Option (List Row)) (st : Stage)
      → set_staged table x (set_staged table y st) ≡ set_staged table x st
  set_staged_twice sightings_table x y st = refl
  set_staged_twice movements_table x y st = refl

  stage_post :
      (table : WindowTable) (q : Planned)
      → Post (stage_new_rows f table q.source q.plan) (StagedOnce table q)
  stage_post table q =
      Post-mono (stage_new_rows f table q.source q.plan)
        (Both (Found (Dropped table)) (λ _. Found (Filled table q))) (StagedOnce table q)
        (fill_post table q)
        λ s a t (_, m, w, _, (s1, w1, e1, w1', d), (s2, w2, e2, w2', fl)). (
          s2,
          Waits-trans w w2,
          w2',
          fl
              ∙ ap (set_staged table (some (new_in table q s2)))
                  (e2 ∙ d ∙ ap (set_staged table none) e1)
              ∙ set_staged_twice table (some (new_in table q s2)) none s.stage,
        )

  count_once : (q : Planned) → Post (count_candidates f q.source q.plan) (CountedOnce q)
  count_once q =
      Post-mono (count_candidates f q.source q.plan) (Found (Counted q)) (CountedOnce q)
        (count_post q) (λ s a t (s', w, e, w', (c, e')). (c, e' ∙ e))

  abbrev LastStep : ℕ → ℕ → Session → ℕ × ℕ → Session → Type 0
  LastStep c c' s b t = (b ≡ (c, c')) × (t ≡ s)

  abbrev ThirdStep : Plans → ℕ → ℕ → Session → ℕ × ℕ → Session → Type 0
  ThirdStep plans c c' =
      Both (StagedOnce movements_table plans.airport_movements) (λ _. LastStep c c')

  abbrev SecondStep : Plans → ℕ → Session → ℕ × ℕ → Session → Type 0
  SecondStep plans c = Both (CountedOnce plans.airport_movements) (ThirdStep plans c)

  abbrev FirstStep : Plans → ℕ → Session → ℕ × ℕ → Session → Type 0
  FirstStep plans c = Both (StagedOnce sightings_table plans.sightings) (λ _. SecondStep plans c)

  steps_post :
      (plans : Plans)
      → Post (stage_plans f plans) (Both (CountedOnce plans.sightings) (FirstStep plans))
  unfolding stage_plans
  steps_post plans =
      let s = plans.sightings in
      let m = plans.airport_movements in
      Post-bind (count_candidates f s.source s.plan) _ (CountedOnce s) (FirstStep plans)
        (count_once s)
        λ c.
          Post-bind (stage_new_rows f sightings_table s.source s.plan) _
            (StagedOnce sightings_table s) (λ _. SecondStep plans c) (stage_post sightings_table s)
            λ _.
              Post-bind (count_candidates f m.source m.plan) _ (CountedOnce m) (ThirdStep plans c)
                (count_once m)
                λ c'.
                  Post-bind (stage_new_rows f movements_table m.source m.plan) _
                    (StagedOnce movements_table m) (λ _. LastStep c c')
                    (stage_post movements_table m) λ _. Post-pure (c, c')

  pub stage_plans_post : (plans : Plans) → Post (stage_plans f plans) (IsStaged plans)
  stage_plans_post plans =
      Post-mono (stage_plans f plans) (Both (CountedOnce plans.sightings) (FirstStep plans))
        (IsStaged plans) (steps_post plans)
        λ s b t
            (
              c,
              s1,
              v1,
              _,
              (ec, e1),
              (
                _,
                s2,
                v2,
                _,
                (sa, wa, wa', ea),
                (c', s3, v3, _, (ec', e3), (_, s4, v4, _, (sm, wm, wm', em), (eb, et))),
              ),
            ).
          record {
            at_sightings = sa;
            at_movements = sm;
            first = Waits-trans v1 wa;
            second = Waits-trans wa' (Waits-trans v3 wm);
            third = subst (λ x. Waits sm x) (sym et) wm';
            sightings =
                ap (λ (x : Session). x.stage.sightings) et
                ∙ ap (λ (x : Stage). x.sightings) em
                ∙ ap (λ (x : Stage). x.sightings) e3
                ∙ ap (λ (x : Stage). x.sightings) ea;
            movements =
                ap (λ (x : Session). x.stage.airport_movements) et
                ∙ ap (λ (x : Stage). x.airport_movements) em;
            counts =
                eb
                ∙ ap (λ x. (x, c')) ec
                ∙ ap (λ x. (candidates plans.sightings.plan plans.sightings.source.rows, x)) ec';
          }
