-- ===== src/LegacyImport/CopyWhole.antt =====
-- legacy_import.py: `import_legacy_db` from its call to its return.
use mathlib.Core.Path.{subst}
use ha_skywatch.Prelude.{
  ℕ, true, false, Option, none, some, List, ◌≡◌, ◌⊎◌, inl, inr, refl, sym, ap, arith, if_cases,
  if◌then◌else◌,
}
use ha_skywatch.Python.Result.{
  Error, Result, ok, err, operational, legacy_import, Exec, pure, continue, ◌>>=◌, ◌>>◌,
}
use ha_skywatch.LegacyImport.{LegacyTable, LegacyFile, Target}
use ha_skywatch.LegacyImport.Session.{
  Moment, Session, arrive, view, execute, query, update, commit, with_working, next_moment,
}
use ha_skywatch.LegacyImport.Import.{require_table}
use ha_skywatch.LegacyImport.Copy.{
  CopySummary, copy_sightings, copy_entries, copy_movements, fix_sightings, fix_movements,
  copy_step,
}
use ha_skywatch.LegacyImport.Later.{
  Later, now, Waits, Waits-refl, Waits-trans, Waits-arrive, Reads-query,
}
use ha_skywatch.LegacyImport.Locked.{Locks, Locks-with, Ends}
use ha_skywatch.LegacyImport.CopyAtomic.{
  copy_db_spec, rest, rest_spec, Finishes-rest, finish_continue,
}

abbrev locked : Session → Session
locked s = record s { working = s.committed; in_transaction = true }

-- The first INSERT takes the lock in `at`, or raises without it.
abbrev Opens : {A : Type 0} → (Target → Result (A × Target)) → Session → Result A × Session → Type 0
Opens g s o =
    ((at : Session) × Waits s at × Locks (locked at) (g at.committed) o)
    ⊎ ((e : Error) × (o.0 ≡ err e) × Waits s o.1)

relocked :
    {A : Type 0} (r : Result (A × Target)) (s : Session)
    → Locks (locked s) r (with_working r (locked s))
    → Locks (locked s) r (with_working r s)
relocked (ok (a, d)) s h = h
relocked (err e) s h = record {
  locked = refl;
  later = now;
  committed = refl;
  stage = refl;
  outcome = inr (e, refl);
}

update-Opens :
    {A : Type 0} (g : Target → Result (A × Target)) (s : Session)
    → s.in_transaction ≡ false
    → Opens g s (update g s)
unfolding update execute
update-Opens g s h =
    let w = Waits-arrive s h in
    if_cases (Opens g s) (next_moment s.moments).fails (err operational, arrive s)
      (with_working (g (view (arrive s))) (arrive s)) (λ _. inr (operational, refl, w))
      (λ _. inl (
        arrive s,
        w,
        subst
            (λ d.
              Locks (locked (arrive s)) (g (arrive s).committed) (with_working (g d) (arrive s)))
            (sym (ap (λ b. if b then (arrive s).working else (arrive s).committed) w.idle))
            (relocked (g (arrive s).committed) (arrive s) (
              Locks-with (g (arrive s).committed) (locked (arrive s)) (locked (arrive s)) refl now
                refl refl)),
      ))

-- What the body of the `try` statement leaves.
abbrev Body :
    LegacyTable → LegacyTable → LegacyTable → Session → Result CopySummary × Session → Type 0
Body a b c s o =
    ((at : Session) × Waits s at × Ends (locked at) (copy_db_spec a b c at.committed) o)
    ⊎ ((e : Error) × (o.0 ≡ err e) × Waits s o.1)

module _ (a b c : LegacyTable) where
  after_first :
      (s : Session) (o : Result ℕ × Session)
      → Opens (copy_sightings a) s o
      → Body a b c s (continue o.0 (rest a b c) o.1)
  after_first s o (inl (at, w, l)) = inl (
    at,
    w,
    finish_continue (locked at) (copy_sightings a at.committed) o (rest a b c) (rest_spec a b c) l
        (Finishes-rest a b c),
  )
  after_first s (err e, t) (inr (e', h, w)) = inr (e, refl, w)
  after_first s (ok n, t) (inr (e', h, w)) = absurd (ground (arith, h))

  copy_step-Opens :
      (s : Session)
      → s.in_transaction ≡ false
      → Opens (copy_sightings a) s (copy_step copy_sightings (some a) s)
  unfolding copy_step
  copy_step-Opens s idle = after_query (query (λ _. tt) s) ((Reads-query (λ _. tt)).waits s idle)
    where
      after_query :
          (o : Result (Unit {0}) × Session)
          → Waits s o.1
          → Opens (copy_sightings a) s (continue o.0 (λ _. update (copy_sightings a)) o.1)
      after_query (err e, t) w = inr (e, refl, w)
      after_query (ok x, t) w = elim (update-Opens (copy_sightings a) t w.idle) [
        | inl (at, w', l) ↦ inl (at, Waits-trans w w', l)
        | inr (e, h, w') ↦ inr (e, h, Waits-trans w w')
      ]

-- The three tables, if the file has them.
abbrev pub AllTables : LegacyFile → LegacyTable → LegacyTable → LegacyTable → Type 0
AllTables legacy a b c =
    (legacy.sightings ≡ some a) × (legacy.entries ≡ some b) × (legacy.airport_movements ≡ some c)

abbrev Tried : LegacyFile → Session → Result CopySummary × Session → Type 0
Tried legacy s o =
    ((a b c : LegacyTable) × AllTables legacy a b c
      × ((at : Session) × Waits s at × Ends (locked at) (copy_db_spec a b c at.committed) o))
    ⊎ ((e : Error) × (o.0 ≡ err e) × Waits s o.1)

abbrev after_tables : LegacyFile → Exec Session CopySummary
after_tables legacy = do
  require_table legacy.sightings
  require_table legacy.entries
  require_table legacy.airport_movements
  s ← copy_step copy_sightings legacy.sightings
  e ← copy_step copy_entries legacy.entries
  m ← copy_step copy_movements legacy.airport_movements
  update fix_sightings
  update fix_movements
  commit
  pure (record { sightings_inserted = s; entries_inserted = e; movements_inserted = m })

tried :
    (a b c : Option LegacyTable) (s : Session)
    → s.in_transaction ≡ false
    → let legacy : LegacyFile = record { sightings = a; entries = b; airport_movements = c } in
      Tried legacy s (after_tables legacy s)
unfolding require_table
tried none b c s h = inr (legacy_import, refl, Waits-refl s h)
tried (some a) none c s h = inr (legacy_import, refl, Waits-refl s h)
tried (some a) (some b) none s h = inr (legacy_import, refl, Waits-refl s h)
tried (some a) (some b) (some c) s h =
    elim (after_first a b c s (copy_step copy_sightings (some a) s) (copy_step-Opens a b c s h)) [
      | inl (at, w, l) ↦ inl (a, b, c, (refl, refl, refl), (at, w, l))
      | inr bad ↦ inr bad
    ]

-- All of the import.
pub record IsCopied (legacy : LegacyFile) (s : Session) (o : Result CopySummary × Session)
    : Type 0 where
  pub sightings : LegacyTable
  pub entries : LegacyTable
  pub airport_movements : LegacyTable
  pub tables : AllTables legacy sightings entries airport_movements
  -- The session in which the lock was taken.
  pub at_lock : Session
  pub first : Waits s at_lock
  pub summary : CopySummary
  pub result : Target
  pub copied :
      copy_db_spec sightings entries airport_movements at_lock.committed ≡ ok (summary, result)
  pub moments : List Moment
  pub alone : Later at_lock.committed at_lock.moments at_lock.committed moments
  pub last : Later result moments o.1.committed o.1.moments
  -- Only the DETACH may still raise.
  pub outcome : (o.0 ≡ ok summary) ⊎ (o.0 ≡ err operational)

-- Nothing of it.
abbrev pub IsRefused : Session → Result CopySummary × Session → Type 0
IsRefused s o =
    Later s.committed s.moments o.1.committed o.1.moments × ((e : Error) × (o.0 ≡ err e))

abbrev pub CopiesAll : LegacyFile → Session → Result CopySummary × Session → Type 0
CopiesAll legacy s o = IsCopied legacy s o ⊎ IsRefused s o

Tried-later :
    (legacy : LegacyFile) (s t : Session) (o : Result CopySummary × Session)
    → Waits s t
    → Tried legacy t o
    → Tried legacy s o
Tried-later legacy s t o w (inl (a, b, c, tables, (at, w', l))) =
    inl (a, b, c, tables, (at, Waits-trans w w', l))
Tried-later legacy s t o w (inr (e, h, w')) = inr (e, h, Waits-trans w w')

after_query :
    (legacy : LegacyFile) (s : Session) (o : Result (Unit {0}) × Session)
    → Waits s o.1
    → Tried legacy s (continue o.0 (λ _. after_tables legacy) o.1)
after_query legacy s (err e, t) w = inr (e, refl, w)
after_query legacy s (ok x, t) w =
    Tried-later legacy s t (after_tables legacy t) w
      (tried legacy.sightings legacy.entries legacy.airport_movements t w.idle)
