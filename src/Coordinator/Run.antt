-- ===== src/Coordinator/Run.antt =====
-- coordinator.py: a job in the executor, and an event of the provider that reaches the coordinator.
use ha_skywatch.Python.{Platform}
use ha_skywatch.Python.Result.{Result, ok, err, Exec}
use ha_skywatch.Time.{Instant}
use ha_skywatch.Backends.Fr24.{Payload, handle_entry, handle_exit, handle_landed, handle_took_off}
use ha_skywatch.Storage.Connection.{run, close}
use ha_skywatch.Storage.Repository.{record_entry, record_exit, record_movement, record_positions}
use ha_skywatch.Coordinator.{
  World, Config, Queued, write_entry, write_exit, write_movement, write_positions, close_db,
  request_refresh, calls,
}

-- `async_request_refresh` runs after an exit or a movement, unless the job raised.
abbrev pub refresh_if : {A : Type 0} → Result A → World → World
refresh_if (ok a) w = request_refresh w
refresh_if (err e) w = w

module _ (p : Platform) where
  -- `SerializedConnection.run` or `close` in a thread of the executor, and what the task that
  -- waits for it does then.
  unfoldable pub execute : Instant → Queued → World → World
  unfolding run close
  execute now (write_entry e) w = record w { store = (run (record_entry p now e) w.store).1 }
  execute now (write_exit flight_id sighting) w =
      let r = run (record_exit p flight_id sighting) w.store in
      refresh_if r.0 (record w { store = r.1 })
  execute now (write_movement m) w =
      let r = run (record_movement p m) w.store in refresh_if r.0 (record w { store = r.1 })
  execute now (write_positions rows) w = record w {
    store = (run (record_positions p now rows) w.store).1;
  }
  execute now close_db w = record w { store = close w.store }

-- An event that the bus brings, of one of the four kinds that the source listens for.
pub data ProviderEvent : Type 0 where
  entered left arrived departed : Payload → ProviderEvent

module _ (p : Platform) (cfg : Config) where
  -- The four bus handlers of the source, with the coordinator's methods as its callbacks.
  unfoldable pub provider_event : Instant → ProviderEvent → Exec World (Unit {0})
  unfolding calls handle_entry handle_exit handle_landed handle_took_off
  provider_event now (entered payload) w = handle_entry p (calls cfg) w.source now payload w
  provider_event now (left payload) w = handle_exit p (calls cfg) w.source now payload w
  provider_event now (arrived payload) w = handle_landed p (calls cfg) w.source now payload w
  provider_event now (departed payload) w = handle_took_off p (calls cfg) w.source now payload w
