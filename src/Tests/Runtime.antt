-- ===== src/Tests/Runtime.antt =====
-- The source, the coordinator and the data builder on an aircraft's visit.
use ha_skywatch.Prelude.{◌+◌, ◌≡◌, refl, true, false, none, some, [], ◌∷◌, ◌++◌, codes, arith, inl}
use ha_skywatch.Prelude.Int.{pos}
use ha_skywatch.Python.{int, null, float, inf, finite}
use ha_skywatch.Python.Result.{err, overflow}
use ha_skywatch.Normalizers.Laws.{infinite}
use ha_skywatch.Classify.{WatchEntry}
use ha_skywatch.Backends.Base.{new_source, register, emit}
use ha_skywatch.Backends.Fr24.{Fields, handle_exit, sighting_of, payload_to_sighting}
use ha_skywatch.Normalizers.{coerce_int, coerce_float}
use ha_skywatch.Models.{Sighting}
use ha_skywatch.Backends.Fr24.Laws.{handle_exit-err}
use ha_skywatch.Coordinator.{
  start_task, async_db, persist_exit, fire_and_create, World, Config, calls, add_listeners,
  async_unload, async_set_page, entry_event, write_exit,
}
use ha_skywatch.Coordinator.Run.{execute, provider_event, left}
use ha_skywatch.Coordinator.Steps.{event, start, finish, unload, set_page, Steps, done, more}
use ha_skywatch.Coordinator.Counting.{IsTracked}
use ha_skywatch.Coordinator.NoLoss.{steps-IsTracked}
use ha_skywatch.Coordinator.Drain.{IsDrained, drain}
use ha_skywatch.Coordinator.Safety.{IsSafe, steps-IsSafe, steps_closed}
use ha_skywatch.Coordinator.Events.{entry_event_unwatched}
use ha_skywatch.DataBuilder.{Clock}
use ha_skywatch.Coordinator.Refresh.{data_of, data_of-async_set_page}
use ha_skywatch.Storage.Queries.Recent.{total_pages_of}
use ha_skywatch.Http.{LiveFlight}
use ha_skywatch.Http.View.{Shown}
use ha_skywatch.Tests.Fixtures.{
  ten_o_clock, device, utc, an_entry, a_sighting, new_conn, empty_db-IsValid, small_db,
}

abbrev payload : Fields
payload = record {
  id = some (codes "3a1b");
  callsign = some (codes "BAW123");
  flight_number = some (codes "BA123");
  aircraft_code = some (codes "A320");
  aircraft_model = none;
  aircraft_registration = some (codes "G-EUUA");
  airline = none;
  airline_iata = none;
  airport_origin_code_iata = none;
  airport_origin_city = none;
  airport_destination_code_iata = none;
  airport_destination_city = none;
  altitude = float inf;
  ground_speed = null;
  heading = null;
  vertical_speed = null;
  closest_distance = null;
  aircraft_photo_small = null;
  tracked_by_device = none;
}

abbrev leaving : Fields
leaving = record payload { altitude = null }

abbrev police : WatchEntry
police = record {
  slug = codes "rpau";
  label = codes "Police";
  registration = some (codes "C-GRPF");
  aircraft_code = some (codes "C182");
  match_blocked = true;
}

abbrev cfg : Config
cfg = record { helo_codes = []; military_codes = []; watch_list = police ∷ [] }

-- The coordinator after its setup on a new database.
abbrev started : World
started = add_listeners (record {
  store = record { conn = new_conn; closed = false };
  has_db = true;
  current_page = 1;
  current_search = [];
  source = new_source;
  fired = [];
  tasks = [];
  queue = [];
  refreshes = 0;
})

handle_exit-err_example :
    handle_exit device (calls cfg) started.source ten_o_clock (some payload) started
    ≡ (err overflow, started)
handle_exit-err_example =
    handle_exit-err device (calls cfg) started.source ten_o_clock payload started
      (infinite inf (inl refl))

entry_event_unwatched_example :
    ((entry_event cfg an_entry).watch_slug ≡ none) × ((entry_event cfg an_entry).watch_label ≡ none)
entry_event_unwatched_example = entry_event_unwatched cfg an_entry (λ e. ground (arith, e))

started-IsTracked : IsTracked 0 0 started
unfolding add_listeners
started-IsTracked = record {
  running = λ _. record {
    still_open = refl;
    idle = record { no_transaction = refl; in_step = refl };
    no_faults = refl;
    no_close = refl;
    exits = refl;
    movements = refl;
  };
}

-- An exit event is fired, its task starts, and its job runs.
abbrev seen : Sighting
seen = sighting_of ten_o_clock leaving none none none none none

abbrev announced : World
announced = (provider_event device cfg ten_o_clock (left (some leaving)) started).1

abbrev queued : World
queued = start_task (persist_exit leaving.id seen) (record announced { tasks = [] })

abbrev stored : World
stored = execute device ten_o_clock (write_exit leaving.id seen) (record queued { queue = [] })

one_task : announced.tasks ≡ [] ++ (persist_exit leaving.id seen ∷ [])
unfolding provider_event handle_exit payload_to_sighting coerce_int coerce_float calls add_listeners
    register emit fire_and_create
one_task = refl

one_job : queued.queue ≡ [] ++ (write_exit leaving.id seen ∷ [])
unfolding provider_event handle_exit payload_to_sighting coerce_int coerce_float calls add_listeners
    register emit fire_and_create start_task async_db
one_job = refl

visit : Steps device cfg started stored
visit =
    more _ _ _
      (more _ _ _ (more _ _ _ (done _) (event ten_o_clock (left (some leaving)) started))
        (start [] [] (persist_exit leaving.id seen) announced one_task))
      (finish ten_o_clock [] [] (write_exit leaving.id seen) queued one_job)

visit_and_unload : Steps device cfg started (async_unload stored)
visit_and_unload = more _ _ _ visit (unload stored)

steps-IsTracked_example : IsTracked 0 0 stored
steps-IsTracked_example = steps-IsTracked device cfg started stored visit started-IsTracked

-- Draining the coordinator in front of the exit's task stores the sighting.
announced-IsTracked : IsTracked 0 0 announced
announced-IsTracked =
    steps-IsTracked device cfg started announced
      (more _ _ _ (done _) (event ten_o_clock (left (some leaving)) started)) started-IsTracked

still_loaded : announced.has_db ≡ true
unfolding provider_event handle_exit payload_to_sighting coerce_int coerce_float calls add_listeners
    register emit fire_and_create
still_loaded = refl

drain_example :
    IsDrained device cfg 0 0 announced
      (drain device cfg ten_o_clock announced still_loaded announced-IsTracked).0
drain_example = (drain device cfg ten_o_clock announced still_loaded announced-IsTracked).1

started-IsSafe : IsSafe started.store
unfolding add_listeners
started-IsSafe = record {
  idle = record { no_transaction = refl; in_step = refl };
  valid = empty_db-IsValid;
}

steps-IsSafe_example : IsSafe (async_unload stored).store
steps-IsSafe_example =
    steps-IsSafe device cfg started (async_unload stored) visit_and_unload started-IsSafe

-- After the close, a job that was queued before it is still to run.
abbrev closed_world : World
closed_world = record started {
  store = record { conn = new_conn; closed = true };
  has_db = false;
  queue = write_exit none a_sighting ∷ [];
}

steps_closed_example : (async_set_page (pos 3) closed_world).store ≡ closed_world.store
steps_closed_example =
    steps_closed device cfg closed_world (async_set_page (pos 3) closed_world)
      (more _ _ _ (done _) (set_page (pos 3) closed_world)) refl

abbrev clock : Clock
clock = record {
  today = ten_o_clock;
  stats = ten_o_clock;
  movements = ten_o_clock;
  active_1h = ten_o_clock;
  active_24h = ten_o_clock + 1;
  watch = λ _. ten_o_clock;
}

abbrev live : LiveFlight
live = record {
  id = some (codes "3a1b");
  callsign = some (codes "BAW123");
  flight_number = none;
  latitude = int (pos 51);
  longitude = int (pos 0);
  altitude = null;
  heading = null;
  ground_speed = null;
  aircraft_code = some (codes "A320");
  aircraft_model = none;
  aircraft_registration = none;
}

data_of-async_set_page_example :
    ((async_set_page (pos 7) started).current_page ≡ 7)
    × ((data_of device utc cfg
          (finite (pos 5))
          (pos 10000)
          clock
          2
          (async_set_page (pos 7) started)
          small_db).recent.page
        ≡ 1)
unfolding total_pages_of
data_of-async_set_page_example =
    data_of-async_set_page device utc cfg (finite (pos 5)) (pos 10000) clock 2 (pos 7) started
      small_db

abbrev shown : Shown
shown = record {
  world = started;
  config = cfg;
  flights = live ∷ [];
  options = record { home_latitude = none; home_longitude = none; radius_km = none };
}
