-- ===== src/LegacyImport/Copying.antt =====
-- legacy_import.py: the transaction of `import_legacy_window`, from the session that asks
-- for the lock.
use mathlib.Core.Path.{subst}
use ha_skywatch.Prelude.{ℕ, true, false, ◌≡◌, ◌⊎◌, inl, inr, refl, sym, if_cases}
use ha_skywatch.Python.Result.{Error, Result, ok, err, operational, pure, continue, ◌>>=◌}
use ha_skywatch.LegacyImport.Window.{Strftime}
use ha_skywatch.LegacyImport.Session.{
  Session, arrive, execute, begin_immediate, commit, next_moment,
}
use ha_skywatch.LegacyImport.Import.{
  sightings_table, movements_table, Plans, commit_stage, copy_plans,
}
use ha_skywatch.LegacyImport.Later.{Later, Later-trans, Waits, Waits-arrive}
use ha_skywatch.LegacyImport.Locked.{Ends, first-Ends, copy_spec, commit_stage-Locks}

-- `BEGIN IMMEDIATE` and what follows, as seen from the session in which the lock is asked for.
pub record Copies (f : Strftime) (plans : Plans) (s : Session) (o : Result (ℕ × ℕ) × Session)
    : Type 0 where
  pub outcome :
      ((n : ℕ × ℕ) × (at : Session) × Waits s at
        × (copy_spec f plans s.stage at.committed ≡ ok (n, o.1.committed))
        × (o.0 ≡ ok n)
        × (o.1.in_transaction ≡ false)
        × (Later at.committed at.moments at.committed o.1.moments))
      ⊎ ((e : Error) × (o.0 ≡ err e) × (Later s.committed s.moments o.1.committed o.1.moments))

abbrev locked : Session → Session
locked s = record s { working = s.committed; in_transaction = true }

Copies-of :
    (f : Strftime) (plans : Plans) (s at : Session) (o : Result (ℕ × ℕ) × Session)
    → Waits s at
    → Ends (locked at) (copy_spec f plans s.stage at.committed) o
    → Copies f plans s o
Copies-of f plans s at o w h = record {
  outcome = elim h.outcome [
    | inl (n, d, er, eo, ed, idle, kept) ↦ inl (
      n,
      at,
      w,
      subst (λ x. copy_spec f plans s.stage at.committed ≡ ok (n, x)) (sym ed) er,
      eo,
      idle,
      kept,
    )
    | inr (e, eo, later) ↦ inr (e, eo, Later-trans w.later later)
  ];
}

pub copy_plans-Copies :
    (f : Strftime) (plans : Plans) (s : Session)
    → s.in_transaction ≡ false
    → Copies f plans s (copy_plans f plans s)
unfolding copy_plans begin_immediate execute arrive
copy_plans-Copies f plans s h =
    let w = Waits-arrive s h in
    let k = λ (_ : Unit {0}). commit_stage f sightings_table plans.sightings.plan >>= λ i.
    commit_stage f movements_table plans.airport_movements.plan >>= λ i'.
    commit >>= λ _. pure (i, i') in
    if_cases (λ (o : Result (Unit {0}) × Session). Copies f plans s (continue o.0 k o.1))
      (next_moment s.moments).fails (err operational, arrive s) (ok tt, locked (arrive s))
      (λ _. record { outcome = inr (operational, refl, w.later) })
      (λ _. Copies-of f plans s (arrive s) _ w (
        first-Ends f plans s.stage (locked (arrive s)) _ _ refl
          (commit_stage-Locks f sightings_table plans.sightings.plan (locked (arrive s)) refl)))
