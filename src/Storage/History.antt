-- ===== src/Storage/History.antt =====
-- Units of work in any order on one connection, some of which fail.
use mathlib.Core.Path.{subst}
use ha_skywatch.Prelude.{false, Option, List, [], ◌∷◌, Text, ◌≡◌, sym, inl, inr}
use ha_skywatch.Time.{Instant}
use ha_skywatch.Python.{Platform}
use ha_skywatch.Python.Result.{Result}
use ha_skywatch.Models.{Entry, Sighting, Movement}
use ha_skywatch.Storage.Schema.{Database}
use ha_skywatch.Storage.Connection.{IsIdle, SerializedConnection, run}
use ha_skywatch.Storage.Connection.Units.{IsAtomic}
use ha_skywatch.Storage.Repository.{
  Sample, record_positions, record_entry, record_exit, record_movement,
}
use ha_skywatch.Storage.Repository.Invariant.{
  IsValid, entry_spec-IsValid, exit_spec-IsValid, movement_spec-IsValid,
  record_positions_spec-IsValid,
}
use ha_skywatch.Storage.Repository.Spec.{
  record_entry-IsAtomic, record_exit-IsAtomic, record_movement-IsAtomic, record_positions-IsAtomic,
}

-- One call of a unit of work, as the executor makes it.
pub data Job : Type 0 where
  entry : Instant → Entry → Job
  exit : Option Text → Sighting → Job
  movement : Movement → Job
  positions : Instant → List Sample → Job

-- The connection is open and idle, and the committed tables keep their keys.
pub record IsSound (s : SerializedConnection) : Type 0 where
  pub still_open : s.closed ≡ false
  pub idle : IsIdle s.conn
  pub valid : IsValid s.conn.committed

module _ (p : Platform) where
  unfoldable pub do_job : Job → SerializedConnection → SerializedConnection
  do_job (entry now e) s = (run (record_entry p now e) s).1
  do_job (exit flight_id sighting) s = (run (record_exit p flight_id sighting) s).1
  do_job (movement m) s = (run (record_movement p m) s).1
  do_job (positions now rows) s = (run (record_positions p now rows) s).1

  unfoldable pub do_jobs : List Job → SerializedConnection → SerializedConnection
  do_jobs [] s = s
  do_jobs (job ∷ jobs) s = do_jobs jobs (do_job job s)

  valid_after :
      {A : Type 0} (r : A × Database) (s : SerializedConnection)
      (o : Result A × SerializedConnection)
      → IsAtomic r s o
      → IsValid s.conn.committed
      → IsValid r.1
      → IsSound o.1
  valid_after r s o atomic before after = record {
    still_open = atomic.still_open;
    idle = atomic.idle;
    valid = elim atomic.outcome [
      | inl (_, committed, _) ↦ subst IsValid (sym committed) after
      | inr (_, _, unchanged, _) ↦ subst IsValid (sym unchanged) before
    ];
  }

  pub do_job-IsSound : (job : Job) (s : SerializedConnection) → IsSound s → IsSound (do_job job s)
  unfolding do_job
  do_job-IsSound (entry now e) s h =
      valid_after _ s _ (record_entry-IsAtomic p s h.still_open h.idle now e) h.valid
        (entry_spec-IsValid p now e s.conn.committed h.valid)
  do_job-IsSound (exit flight_id sighting) s h =
      valid_after _ s _ (record_exit-IsAtomic p s h.still_open h.idle flight_id sighting) h.valid
        (exit_spec-IsValid p flight_id sighting s.conn.committed h.valid)
  do_job-IsSound (movement m) s h =
      valid_after _ s _ (record_movement-IsAtomic p s h.still_open h.idle m) h.valid
        (movement_spec-IsValid p m s.conn.committed h.valid)
  do_job-IsSound (positions now rows) s h =
      valid_after _ s _ (record_positions-IsAtomic p s h.still_open h.idle now rows) h.valid
        (record_positions_spec-IsValid p now rows s.conn.committed h.valid)

  -- Whatever units of work run on an open, idle connection, in whatever order, and whichever
  -- statements fail: it stays open and idle, the primary keys of `entries` and `flight_positions`
  -- hold, and the ids of `sightings` and `airport_movements` grow from row to row.
  pub do_jobs-IsSound :
      (jobs : List Job) (s : SerializedConnection) → IsSound s → IsSound (do_jobs jobs s)
  unfolding do_jobs
  do_jobs-IsSound [] s h = h
  do_jobs-IsSound (job ∷ jobs) s h = do_jobs-IsSound jobs (do_job job s) (do_job-IsSound job s h)
