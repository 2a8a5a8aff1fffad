-- ===== src/LegacyImport/Real.antt =====
-- legacy_import.py: a run of the plans of `import_legacy_window`.
use mathlib.Core.Path.{subst}
use ha_skywatch.Prelude.{
  ℕ, Bool, true, false, Option, some, List, ◌≡◌, ◌⊎◌, inl, inr, refl, sym, ◌∙◌, ap, arith,
}
use ha_skywatch.Python.Result.{Error, Result, ok, err, operational, pure, continue, ◌>>=◌}
use ha_skywatch.Storage.Migrations.{and_then}
use ha_skywatch.LegacyImport.{Row, Target}
use ha_skywatch.LegacyImport.Window.{Strftime, candidates}
use ha_skywatch.LegacyImport.Session.{Moment, Stage, Session}
use ha_skywatch.LegacyImport.Import.{
  sightings_table, movements_table, Plans, Summary, counts, copy_plans, stage_plans, run_plans,
  give_up, end_window,
}
use ha_skywatch.LegacyImport.Later.{Later, Later-trans, Waits, Waits-trans}
use ha_skywatch.LegacyImport.Stages.{IsStaged, new_in, stage_plans_post}
use ha_skywatch.LegacyImport.Cleanup.{undone, undone_parts, cleaned, detached, detached_parts}
use ha_skywatch.LegacyImport.Locked.{copy_spec}
use ha_skywatch.LegacyImport.Copying.{Copies, copy_plans-Copies}

-- What a run leaves: nothing of it, or all.
pub record IsImported (f : Strftime) (plans : Plans) (s : Session) (o : Result Summary × Session)
    : Type 0 where
  -- The sessions in which the two tables were read and the lock was taken.
  pub at_sightings : Session
  pub at_movements : Session
  pub at_lock : Session
  pub first : Waits s at_sightings
  pub second : Waits at_sightings at_movements
  pub third : Waits at_movements at_lock
  pub inserted : ℕ × ℕ
  pub result : Target
  -- The copied rows: those that were new when they were read and are so when they are written.
  pub copied :
      copy_spec f plans
        (record {
          sightings = some (new_in f sightings_table plans.sightings at_sightings);
          airport_movements = some (new_in f movements_table plans.airport_movements at_movements);
        })
        at_lock.committed
      ≡ ok (inserted, result)
  -- The moments left after the commit, before which the lock kept others out, and what others did
  -- while the stages were dropped and the file was detached.
  pub moments : List Moment
  pub alone : Later at_lock.committed at_lock.moments at_lock.committed moments
  pub last : Later result moments o.1.committed o.1.moments
  -- Only the DETACH may still raise.
  pub outcome :
      (o.0
        ≡ ok (record {
          sightings =
              counts (candidates plans.sightings.plan plans.sightings.source.rows) inserted.0;
          airport_movements =
              counts
                (candidates plans.airport_movements.plan plans.airport_movements.source.rows)
                inserted.1;
        }))
      ⊎ (o.0 ≡ err operational)

-- The run raised and the target is as others left it.
pub record IsUnchanged (s : Session) (o : Result Summary × Session) : Type 0 where
  pub later : Later s.committed s.moments o.1.committed o.1.moments
  pub raised : (e : Error) × (o.0 ≡ err e)

abbrev finished : Plans → ℕ × ℕ → Summary
finished plans n = record {
  sightings = counts (candidates plans.sightings.plan plans.sightings.source.rows) n.0;
  airport_movements =
      counts (candidates plans.airport_movements.plan plans.airport_movements.source.rows) n.1;
}

pub raised_ends :
    (planned : Bool) (s t : Session) (e : Error)
    → Later s.committed s.moments t.committed t.moments
    → IsUnchanged s (err e, give_up planned t)
unfolding give_up
raised_ends planned s t e l =
    let (c, ms, idle) = undone_parts t in
    record {
      later =
          Later-trans
            (subst (λ d. Later s.committed s.moments d (undone t).moments) (sym c)
              (subst (λ x. Later s.committed s.moments t.committed x) (sym ms) l))
            (cleaned planned (undone t) idle).later;
      raised = (e, refl);
    }

-- A run of the plans that `plans` stands for: all or nothing.
abbrev pub Whole : Strftime → Plans → Session → Result Summary × Session → Type 0
Whole f plans s o = IsImported f plans s o ⊎ IsUnchanged s o

abbrev stage_of : Option (List Row) → Option (List Row) → Stage
stage_of a b = record { sightings = a; airport_movements = b }

module _ (f : Strftime) (plans : Plans) (s : Session) where
  imported :
      (c n : ℕ × ℕ) (t at u : Session)
      → IsStaged f plans s c t
      → Waits t at
      → copy_spec f plans t.stage at.committed ≡ ok (n, u.committed)
      → u.in_transaction ≡ false
      → Later at.committed at.moments at.committed u.moments
      → IsImported f plans s
          (detached (record { sightings = counts c.0 n.0; airport_movements = counts c.1 n.1 }) u)
  imported c n t at u st w er idle kept =
      let summary : Summary = record {
        sightings = counts c.0 n.0;
        airport_movements = counts c.1 n.1;
      } in
      let (last, outcome) = detached_parts summary u idle in
      record {
        at_sightings = st.at_sightings;
        at_movements = st.at_movements;
        at_lock = at;
        first = st.first;
        second = st.second;
        third = Waits-trans st.third w;
        inserted = n;
        result = u.committed;
        copied =
            subst
              (λ a.
                copy_spec f plans
                  (stage_of a
                    (some (new_in f movements_table plans.airport_movements st.at_movements)))
                  at.committed
                ≡ ok (n, u.committed))
              st.sightings
              (subst
                (λ b.
                  copy_spec f plans (stage_of t.stage.sightings b) at.committed
                  ≡ ok (n, u.committed))
                st.movements er);
        moments = u.moments;
        alone = kept;
        last = last;
        outcome = elim outcome [
          | inl e ↦ inl (
              e
              ∙ ap
                  (λ (x : ℕ × ℕ).
                    ok (record { sightings = counts x.0 n.0; airport_movements = counts x.1 n.1 }))
                  st.counts)
          | inr e ↦ inr e
        ];
      }

  after_copy :
      (c : ℕ × ℕ) (t : Session) (o : Result (ℕ × ℕ) × Session)
      → IsStaged f plans s c t
      → Later s.committed s.moments t.committed t.moments
      → Copies f plans t o
      → Whole f plans s (
          end_window (
            continue o.0
              (λ (i, i').
                pure (record { sightings = counts c.0 i; airport_movements = counts c.1 i' }))
              o.1))
  unfolding end_window
  after_copy c t (err e, u) st l h = elim h.outcome [
    | inl (n, at, w, er, bad, idle, kept) ↦ absurd (ground (arith, bad))
    | inr (e', ee, later) ↦ inr (raised_ends true s u e (Later-trans l later))
  ]
  after_copy c t (ok n, u) st l h = elim h.outcome [
    | inr (e', bad, later) ↦ absurd (ground (arith, bad))
    | inl (n', at, w, er, en, idle, kept) ↦ inl (
        imported c n t at u st w
          (er ∙ ap (λ (r : Result (ℕ × ℕ)). and_then r λ x. ok (x, u.committed)) (sym en)) idle
          kept)
  ]

  after_stage :
      (o : Result (ℕ × ℕ) × Session)
      → Waits s o.1
      → ((c : ℕ × ℕ) → o.0 ≡ ok c → IsStaged f plans s c o.1)
      → Whole f plans s (
          end_window (
            continue o.0
              (λ (c, c'). copy_plans f plans >>= λ (i, i').
                pure (record { sightings = counts c i; airport_movements = counts c' i' }))
              o.1))
  unfolding end_window
  after_stage (err e, u) w q = inr (raised_ends true s u e w.later)
  after_stage (ok c, u) w q =
      after_copy c u (copy_plans f plans u) (q c refl) w.later (copy_plans-Copies f plans u w.idle)

  pub run_plans-Whole :
      s.in_transaction ≡ false → Whole f plans s (end_window (run_plans f false plans s))
  unfolding run_plans
  run_plans-Whole idle =
      let (w, q) = stage_plans_post f plans s idle in after_stage (stage_plans f plans s) w q
