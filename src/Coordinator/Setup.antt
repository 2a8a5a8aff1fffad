-- ===== src/Coordinator/Setup.antt =====
-- coordinator.py: `async_setup`, what it leaves behind where it raises, and how unloading undoes it.
use ha_skywatch.Prelude.{Bool, true, false, ◌&&◌, [], ◌∷◌, ◌++◌, ◌≡◌, refl, any}
use ha_skywatch.Python.{Platform}
use ha_skywatch.Python.Result.{Result, ok, err, not_ready, Exec, ◌>>=◌, ◌>>◌}
use ha_skywatch.Time.{Instant}
use ha_skywatch.Backends.Base.{Source, unsub-register}
use ha_skywatch.Storage.Connection.{Conn, SerializedConnection, close}
use ha_skywatch.Coordinator.{
  World, Listener, on_entry, on_exit, on_landing, on_takeoff, same_listener, close_db,
  add_listeners, async_unload,
}
use ha_skywatch.Coordinator.Run.{execute}

-- What a setup meets: what `open_db` gives, whether Flightradar24 has entries, and whether the
-- first refresh works.
pub record Surroundings : Type 0 where
  pub opened : Result Conn
  pub fr24_loaded : Bool
  pub refreshed : Bool

-- `SerializedConnection(conn)`
abbrev pub serialized : Conn → SerializedConnection
serialized conn = record { conn = conn; closed = false }

-- `open_db` in the executor
abbrev open_db : Result Conn → Exec World Conn
open_db opened w = (opened, w)

-- `self._db = SerializedConnection(conn)`
abbrev connect : Conn → Exec World (Unit {0})
connect conn w = (ok tt, record w { store = serialized conn; has_db = true })

abbrev listen : Exec World (Unit {0})
unfolding add_listeners
listen w = (ok tt, add_listeners w)

-- `self._source.async_setup()` of the Flightradar24 source.
abbrev pub source_setup : Bool → Exec World (Unit {0})
source_setup true w = (ok tt, w)
source_setup false w = (err not_ready, w)

-- `async_config_entry_first_refresh()`
abbrev pub first_refresh : Bool → Exec World (Unit {0})
first_refresh true w = (ok tt, w)
first_refresh false w = (err not_ready, w)

-- The source names an entity to watch, so the trail capture follows its changes; the capture that
-- is created at the end is a step of Coordinator/Steps.
unfoldable pub async_setup : Surroundings → Exec World (Unit {0})
unfolding add_listeners
async_setup at = do
  conn ← open_db at.opened
  connect conn
  source_setup at.fr24_loaded
  listen
  first_refresh at.refreshed

-- No method of the coordinator is registered.
pub record IsDetached (source : Source Listener) : Type 0 where
  pub no_entry : any (λ cb. same_listener cb on_entry) source.entry_listeners ≡ false
  pub no_exit : any (λ cb. same_listener cb on_exit) source.exit_listeners ≡ false
  pub no_landing : any (λ cb. same_listener cb on_landing) source.landing_listeners ≡ false
  pub no_takeoff : any (λ cb. same_listener cb on_takeoff) source.takeoff_listeners ≡ false

pub async_unload-add_listeners :
    (w : World) → IsDetached w.source → (async_unload (add_listeners w)).source ≡ w.source
unfolding async_unload add_listeners same_listener
async_unload-add_listeners w h = rw (
  unsub-register same_listener w.source.entry_listeners on_entry refl h.no_entry,
  unsub-register same_listener w.source.exit_listeners on_exit refl h.no_exit,
  unsub-register same_listener w.source.landing_listeners on_landing refl h.no_landing,
  unsub-register same_listener w.source.takeoff_listeners on_takeoff refl h.no_takeoff,
)

-- The setup works, on a coordinator without listeners; unloading it then leaves the source as it
-- was and gives one job more to the executor, which closes the connection.
pub async_unload-async_setup :
    (p : Platform) (now : Instant) (conn : Conn) (w : World)
    → IsDetached w.source
    → let at : Surroundings = record { opened = ok conn; fr24_loaded = true; refreshed = true } in
      let unloaded = async_unload (async_setup at w).1 in
      ((async_setup at w).0 ≡ ok tt)
      × (unloaded.source ≡ w.source)
      × (unloaded.has_db ≡ false)
      × (unloaded.queue ≡ w.queue ++ (close_db ∷ []))
      × ((execute p now close_db unloaded).store ≡ record (serialized conn) { closed = true })
unfolding async_setup async_unload execute close
async_unload-async_setup p now conn w h = (refl, async_unload-add_listeners w h, refl, refl, refl)

-- Where the database opens but Flightradar24 is not loaded or the first refresh fails, the setup
-- raises ConfigEntryNotReady with the connection open and no job to close it.
pub async_setup_leaves_open :
    (conn : Conn) (w : World) (fr24_loaded refreshed : Bool)
    → (fr24_loaded && refreshed) ≡ false
    → let at : Surroundings = record {
      opened = ok conn;
      fr24_loaded = fr24_loaded;
      refreshed = refreshed;
    } in
      ((async_setup at w).0 ≡ err not_ready)
      × ((async_setup at w).1.store ≡ serialized conn)
      × ((async_setup at w).1.queue ≡ w.queue)
unfolding async_setup add_listeners
async_setup_leaves_open conn w true true h = cc
async_setup_leaves_open conn w true false h = (refl, refl, refl)
async_setup_leaves_open conn w false refreshed h = (refl, refl, refl)
