-- ===== src/LegacyImport/Session.antt =====
-- legacy_import.py: the connection that an import runs on. Another connection may commit to the
-- target before a statement, except while this one holds the write lock, and any statement may
-- raise OperationalError.
use ha_skywatch.Prelude.{Bool, true, false, Option, none, List, [], ◌∷◌, if◌then◌else◌}
use ha_skywatch.Python.Result.{Result, ok, err, operational, Exec}
use ha_skywatch.LegacyImport.{Row, Target}

-- What happens just before a statement, and whether it raises.
pub record Moment : Type 0 where
  pub arrives : Target → Target
  pub fails : Bool

-- The TEMP tables `_skywatch_import_sightings` and `_skywatch_import_airport_movements`.
pub record Stage : Type 0 where
  pub sightings : Option (List Row)
  pub airport_movements : Option (List Row)

abbrev pub no_stage : Stage
no_stage = record { sightings = none; airport_movements = none }

-- `working` is what an open transaction sees; `moments` has one for each statement to come, and
-- after the last nothing happens and nothing fails.
pub record Session : Type 0 where
  pub committed : Target
  pub working : Target
  pub in_transaction : Bool
  pub attached : Bool
  pub stage : Stage
  pub moments : List Moment

abbrev quiet : Moment
quiet = record { arrives = λ d. d; fails = false }

abbrev pub next_moment : List Moment → Moment
next_moment [] = quiet
next_moment (m ∷ ms) = m

abbrev pub later_moments : List Moment → List Moment
later_moments [] = []
later_moments (m ∷ ms) = ms

-- The session as the statement finds it.
unfoldable pub arrive : Session → Session
arrive s = record s {
  committed = if s.in_transaction then s.committed else (next_moment s.moments).arrives s.committed;
  moments = later_moments s.moments;
}

-- The state that a statement sees.
abbrev pub view : Session → Target
view s = if s.in_transaction then s.working else s.committed

-- `conn.execute(…)`
unfoldable pub execute : {A : Type 0} → (Session → Result A × Session) → Exec Session A
unfolding arrive
execute f s = if (next_moment s.moments).fails then (err operational, arrive s) else f (arrive s)

-- A SELECT or a PRAGMA that reads.
unfoldable pub query : {A : Type 0} → (Target → A) → Exec Session A
unfolding execute
query f = execute (λ s. (ok (f (view s)), s))

abbrev pub with_working : {A : Type 0} → Result (A × Target) → Session → Result A × Session
with_working (ok (a, d)) s = (ok a, record s { working = d; in_transaction = true })
with_working (err e) s = (err e, record s { working = view s; in_transaction = true })

-- An INSERT or an UPDATE, which opens a transaction if none is open and changes no row if it
-- raises.
unfoldable pub update : {A : Type 0} → (Target → Result (A × Target)) → Exec Session A
unfolding execute
update f = execute (λ s. with_working (f (view s)) s)

unfoldable pub begin_immediate : Exec Session (Unit {0})
unfolding execute
begin_immediate = execute (λ s. (ok tt, record s { working = s.committed; in_transaction = true }))

-- `conn.commit()`; with no transaction open it does nothing.
unfoldable pub commit : Exec Session (Unit {0})
unfolding execute
commit s =
    if s.in_transaction
    then execute (λ t. (ok tt, record t { committed = t.working; in_transaction = false })) s
    else (ok tt, s)

-- `conn.rollback()`
unfoldable pub rollback : Session → Session
rollback s = record s { working = s.committed; in_transaction = false }

unfoldable pub attach : Exec Session (Unit {0})
unfolding execute
attach = execute (λ s. (ok tt, record s { attached = true }))

unfoldable pub detach : Exec Session (Unit {0})
unfolding execute
detach = execute (λ s. (ok tt, record s { attached = false }))

-- `with contextlib.suppress(…)` around a statement: the session after it, whatever it raises.
abbrev pub suppress : {A : Type 0} → Exec Session A → Session → Session
suppress m s = (m s).1
