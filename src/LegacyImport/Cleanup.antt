-- ===== src/LegacyImport/Cleanup.antt =====
-- legacy_import.py: what follows the `try` statement of `import_legacy_window`, and what its
-- `except` branch does.
use ha_skywatch.Prelude.{
  Bool, true, false, ◌≡◌, ◌⊎◌, inl, inr, refl, arith, if_cases, if◌then◌else◌,
}
use ha_skywatch.Python.Result.{Result, ok, err, operational, pure, continue, ◌>>◌}
use ha_skywatch.LegacyImport.Session.{
  Session, arrive, execute, rollback, detach, suppress, next_moment,
}
use ha_skywatch.LegacyImport.Import.{Summary, drop_stage_tables}
use ha_skywatch.LegacyImport.Later.{Later, Later-trans, Waits, Waits-trans, Reads-detach}
use ha_skywatch.LegacyImport.Reading.{drop_stage_tables-Waits}

abbrev pub undone : Session → Session
undone t = if t.in_transaction then rollback t else t

pub undone_parts :
    (t : Session)
    → ((undone t).committed ≡ t.committed)
      × ((undone t).moments ≡ t.moments)
      × ((undone t).in_transaction ≡ false)
unfolding rollback
undone_parts t =
    if_cases
      (λ (u : Session).
        (u.committed ≡ t.committed) × (u.moments ≡ t.moments) × (u.in_transaction ≡ false))
      t.in_transaction (rollback t) t (λ _. (refl, refl, refl)) (λ idle. (refl, refl, idle))

pub cleaned :
    (planned : Bool) (t : Session)
    → t.in_transaction ≡ false
    → Waits t (suppress detach (if planned then drop_stage_tables t else t))
cleaned true t h =
    let w = drop_stage_tables-Waits t h in
    Waits-trans w (Reads-detach.waits (drop_stage_tables t) w.idle)
cleaned false t h = Reads-detach.waits t h

pub detach_result : (s : Session) → ((detach s).0 ≡ ok tt) ⊎ ((detach s).0 ≡ err operational)
unfolding detach execute
detach_result s =
    if_cases (λ (o : Result (Unit {0}) × Session). (o.0 ≡ ok tt) ⊎ (o.0 ≡ err operational))
      (next_moment s.moments).fails (err operational, arrive s)
      (ok tt, record (arrive s) { attached = false }) (λ _. inr refl) (λ _. inl refl)

-- The end of a run that has a summary.
abbrev pub detached : Summary → Session → Result Summary × Session
detached summary t = (detach >> pure summary) (drop_stage_tables t)

continue_summary :
    (summary : Summary) (t : Session) (o : Result (Unit {0}) × Session)
    → Later t.committed t.moments o.1.committed o.1.moments
    → (o.0 ≡ ok tt) ⊎ (o.0 ≡ err operational)
    → let o' = continue o.0 (λ _. pure summary) o.1 in
      Later t.committed t.moments o'.1.committed o'.1.moments
      × ((o'.0 ≡ ok summary) ⊎ (o'.0 ≡ err operational))
continue_summary summary t (ok a, u) l e = (l, inl refl)
continue_summary summary t (err x, u) l e = (l, inr (ground (arith, e)))

pub detached_parts :
    (summary : Summary) (t : Session)
    → t.in_transaction ≡ false
    → Later t.committed t.moments (detached summary t).1.committed (detached summary t).1.moments
      × (((detached summary t).0 ≡ ok summary) ⊎ ((detached summary t).0 ≡ err operational))
detached_parts summary t h =
    let w = drop_stage_tables-Waits t h in
    continue_summary summary t (detach (drop_stage_tables t))
      (Later-trans w.later (Reads-detach.waits (drop_stage_tables t) w.idle).later)
      (detach_result (drop_stage_tables t))
