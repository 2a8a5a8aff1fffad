-- ===== src/Coordinator.antt =====
-- coordinator.py: the state that the event loop and the executor share, and the coordinator's
-- methods as functions on it. `async_create_task` and `async_add_executor_job` put work into
-- lists, from which Coordinator/Steps takes it in any order.
pub mod Capture
pub mod Run
pub mod Refresh
pub mod Steps
pub mod Handling
pub mod Jobs
pub mod Counting
pub mod NoLoss
pub mod Safety
pub mod Events
pub mod Setup
pub mod Drain
use ha_skywatch.Prelude.{
  ℕ, suc, ◌+◌, max, Bool, true, false, Option, none, some, List, [], ◌∷◌, ◌++◌, Text, codes, strip,
  is_empty, if◌then◌else◌,
}
use ha_skywatch.Prelude.Int.{ℤ, pos_part}
use ha_skywatch.Python.{Value, null, Float, Platform, or_none, or_else, is_none}
use ha_skywatch.Python.Result.{Result, ok, err, Exec, pure}
use ha_skywatch.Time.{Instant, aware}
use ha_skywatch.Models.{Entry, Sighting, Movement}
use ha_skywatch.Normalizers.{to_float}
use ha_skywatch.Classify.{WatchEntry, is_helicopter, is_military, match_watch}
use ha_skywatch.Backends.Base.{Source, register, unsub, new_source}
use ha_skywatch.Backends.Fr24.{
  Payload, Calls, handle_entry, handle_exit, handle_landed, handle_took_off,
}
use ha_skywatch.Storage.Connection.{SerializedConnection, run, close}
use ha_skywatch.Storage.Repository.{
  Sample, record_entry, record_exit, record_movement, record_positions,
}
use ha_skywatch.Storage.History.{Job, entry, exit, movement, positions, do_job}

-- The event `skywatch_sighting`.
pub record SkywatchEvent : Type 0 where
  pub kind : Text
  pub flight_id : Option Text
  pub callsign : Option Text
  pub aircraft_code : Option Text
  pub aircraft_model : Option Text
  pub registration : Option Text
  pub is_helo : Bool
  pub is_military : Bool
  pub watch_slug : Option Text
  pub watch_label : Option Text

-- The methods that the coordinator registers with its source.
pub data Listener : Type 0 where
  on_entry on_exit on_landing on_takeoff : Listener

-- `a is b` for two of them
unfoldable pub same_listener : Listener → Listener → Bool
same_listener on_entry on_entry = true
same_listener on_exit on_exit = true
same_listener on_landing on_landing = true
same_listener on_takeoff on_takeoff = true
same_listener _ _ = false

-- A task of the event loop that has not run yet.
pub data Task : Type 0 where
  persist_entry : Entry → Task
  persist_exit : Option Text → Sighting → Task
  persist_movement : Movement → Task

-- A job of the executor that has not run yet: a unit of work, or `SerializedConnection.close`.
pub data Queued : Type 0 where
  write_entry : Entry → Queued
  write_exit : Option Text → Sighting → Queued
  write_movement : Movement → Queued
  write_positions : List Sample → Queued
  close_db : Queued

-- `store` is the connection object, which the queued jobs hold as well; `has_db` says whether
-- `self._db` still refers to it. `refreshes` counts the calls of `async_request_refresh`.
pub record World : Type 0 where
  pub store : SerializedConnection
  pub has_db : Bool
  pub current_page : ℕ
  pub current_search : Text
  pub source : Source Listener
  pub fired : List SkywatchEvent
  pub tasks : List Task
  pub queue : List Queued
  pub refreshes : ℕ

-- One flight of `source.current_flights()`, with the keys that `_capture_positions` reads.
pub record Flight : Type 0 where
  pub id : Option Text
  pub callsign : Option Text
  pub flight_number : Option Text
  pub latitude : Value
  pub longitude : Value

pub record Config : Type 0 where
  pub helo_codes : List Text
  pub military_codes : List Text
  pub watch_list : List WatchEntry

abbrev pub request_refresh : World → World
request_refresh w = record w { refreshes = w.refreshes + 1 }

unfoldable pub async_set_page : ℤ → World → World
async_set_page page w = request_refresh (record w { current_page = max 1 (pos_part page) })

unfoldable pub async_set_search_term : Text → World → World
async_set_search_term term w = request_refresh (record w { current_search = strip term })

-- `_async_db`, up to the point where the executor has the job.
unfoldable pub async_db : Queued → World → World
async_db job w = if w.has_db then record w { queue = w.queue ++ (job ∷ []) } else w

-- The listener part of `async_setup`.
unfoldable pub add_listeners : World → World
unfolding register
add_listeners w = record w {
  source = record {
    entry_listeners = register w.source.entry_listeners on_entry;
    exit_listeners = register w.source.exit_listeners on_exit;
    landing_listeners = register w.source.landing_listeners on_landing;
    takeoff_listeners = register w.source.takeoff_listeners on_takeoff;
  };
}

-- `async_unload`: the listeners go, `self._db` is set to None, and the close is given to the
-- executor.
unfoldable pub async_unload : World → World
unfolding unsub same_listener
async_unload w = record w {
  source = record {
    entry_listeners = unsub same_listener w.source.entry_listeners on_entry;
    exit_listeners = unsub same_listener w.source.exit_listeners on_exit;
    landing_listeners = unsub same_listener w.source.landing_listeners on_landing;
    takeoff_listeners = unsub same_listener w.source.takeoff_listeners on_takeoff;
  };
  has_db = false;
  queue = if w.has_db then w.queue ++ (close_db ∷ []) else w.queue;
}

-- A task as it starts, up to the point where it waits for the executor.
unfoldable pub start_task : Task → World → World
unfolding async_db
start_task (persist_entry e) w = async_db (write_entry e) w
start_task (persist_exit flight_id sighting) w = async_db (write_exit flight_id sighting) w
start_task (persist_movement m) w = async_db (write_movement m) w

module _ (cfg : Config) where
  -- `_fire_skywatch_event`, the event that it fires.
  unfoldable pub skywatch_event :
      Text → Option Text → Option Text → Option Text → Option Text → Option Text → SkywatchEvent
  skywatch_event kind flight_id callsign aircraft_code aircraft_model registration =
      let watch =
        match_watch
          (record {
            aircraft_registration = registration;
            registration = none;
            aircraft_code = aircraft_code;
            callsign = callsign;
          })
          cfg.watch_list in
      record {
        kind = kind;
        flight_id = flight_id;
        callsign = callsign;
        aircraft_code = aircraft_code;
        aircraft_model = aircraft_model;
        registration = registration;
        is_helo = is_helicopter aircraft_code cfg.helo_codes;
        is_military = is_military aircraft_code cfg.military_codes;
        watch_slug = elim watch [ none ↦ none | some w ↦ some w.slug ];
        watch_label = elim watch [ none ↦ none | some w ↦ some w.label ];
      }

  -- `bus.async_fire` and then `hass.async_create_task`.
  unfoldable pub fire_and_create : SkywatchEvent → Task → Exec World (Unit {0})
  fire_and_create event task w =
      (ok tt, record w { fired = w.fired ++ (event ∷ []); tasks = w.tasks ++ (task ∷ []) })

  unfoldable pub entry_event : Entry → SkywatchEvent
  unfolding skywatch_event
  entry_event e =
      skywatch_event (codes "entry") (some e.flight_id) e.callsign e.aircraft_code e.aircraft_model
        none

  unfoldable pub exit_event : Option Text → Sighting → SkywatchEvent
  unfolding skywatch_event
  exit_event flight_id s =
      skywatch_event (codes "exit") flight_id s.callsign s.aircraft_code s.aircraft_model
        s.registration

  unfoldable pub movement_event : Text → Movement → SkywatchEvent
  unfolding skywatch_event
  movement_event kind m =
      skywatch_event kind none m.callsign m.aircraft_code m.aircraft_model m.registration

  -- `_on_entry`, `_on_exit`, `_on_landing` and `_on_takeoff`, by the list that calls them.
  unfoldable pub calls : Calls Listener World
  unfolding fire_and_create entry_event exit_event movement_event
  calls = record {
    call_entry = λ e listener. fire_and_create (entry_event e) (persist_entry e);
    call_exit =
        λ flight_id s listener. fire_and_create (exit_event flight_id s) (persist_exit flight_id s);
    call_movement = λ m listener. elim listener [
      | on_landing ↦ fire_and_create (movement_event (codes "landed") m) (persist_movement m)
      | _ ↦ fire_and_create (movement_event (codes "took_off") m) (persist_movement m)
    ];
  }
