-- ===== src/Tests/Home.antt =====
-- The config flow, the setup of an entry, and the services, at concrete inputs.
use ha_skywatch.Prelude.{
  ℕ, Bool, true, false, none, some, [], ◌∷◌, Text, codes, text_eq, any, upper, strip, is_empty, ◌≡◌,
  refl, upper_char, leb, ◌&&◌, ◌||◌, if◌then◌else◌, ◌*◌, ◌^◌,
}
use ha_skywatch.Prelude.Int.{pos, negsuc}
use ha_skywatch.Python.{finite, or_none}
use ha_skywatch.Python.Result.{ok, value_error, err, not_ready, home_assistant}
use ha_skywatch.Classify.{WatchItem, from_dict}
use ha_skywatch.Backends.Base.{new_source}
use ha_skywatch.Coordinator.{World, close_db, async_set_page, async_unload}
use ha_skywatch.Coordinator.Run.{execute}
use ha_skywatch.Coordinator.Setup.{
  Surroundings, async_setup, serialized, async_unload-async_setup, async_setup_leaves_open,
}
use ha_skywatch.ConfigFlow.{
  UserInput, EntryData, create_entry, async_step_user, form_error, is_bad_iata, iata_of, within,
  all_letters,
}
use ha_skywatch.ConfigFlow.Laws.{IsChecked, async_step_user-IsChecked}
use ha_skywatch.Services.{get_coordinator, handle_set_page}
use ha_skywatch.Services.Laws.{apply_to, get_coordinator-handle_set_page}
use ha_skywatch.Setup.{
  Options, Hass, settings, merged, tz_name, watch_entries, settings_of, async_setup_entry, Answers,
}
use ha_skywatch.Setup.Laws.{
  IsUndone, IsRaised, willing, async_setup_entry-err, async_unload_entry-async_setup_entry,
}
use ha_skywatch.Setup.Unloading.{IsLeft, async_unload_entry-keeps}
use ha_skywatch.Tests.Fixtures.{ten_o_clock, device, utc, new_conn}

-- Latin letters
abbrev is_letter : ℕ → Bool
is_letter c = (leb 65 c && leb c 90) || (leb 97 c && leb c 122)

abbrev typed : UserInput
typed = record {
  home_latitude = some (finite (pos (51 * 2 ^ 1074)));
  home_longitude = some (finite (negsuc 0));
  airport_iata = some (codes " lhr ");
  radius_km = none;
}

abbrev home : EntryData
home = record {
  home_latitude = finite (pos (51 * 2 ^ 1074));
  home_longitude = finite (negsuc 0);
  airport_iata = some (codes "LHR");
  radius_km = pos 50;
}

typed_creates : async_step_user is_letter (some typed) true false ≡ create_entry home
unfolding async_step_user form_error is_bad_iata iata_of within all_letters is_empty upper strip
    upper_char
typed_creates = refl

async_step_user-IsChecked_example : IsChecked is_letter typed true false home
async_step_user-IsChecked_example =
    async_step_user-IsChecked is_letter typed true false home typed_creates

-- A coordinator as the constructor gives it.
abbrev fresh : World
fresh = record {
  store = serialized new_conn;
  has_db = false;
  current_page = 1;
  current_search = [];
  source = new_source;
  fired = [];
  tasks = [];
  queue = [];
  refreshes = 0;
}

abbrev works : Surroundings
works = record { opened = ok new_conn; fr24_loaded = true; refreshed = true }

async_unload-async_setup_example :
    ((async_setup works fresh).0 ≡ ok tt)
    × ((async_unload (async_setup works fresh).1).source ≡ new_source)
    × ((async_unload (async_setup works fresh).1).has_db ≡ false)
    × ((async_unload (async_setup works fresh).1).queue ≡ close_db ∷ [])
    × ((execute device ten_o_clock close_db (async_unload (async_setup works fresh).1)).store
        ≡ record (serialized new_conn) { closed = true })
async_unload-async_setup_example =
    async_unload-async_setup device ten_o_clock new_conn fresh
      (record { no_entry = refl; no_exit = refl; no_landing = refl; no_takeoff = refl })

abbrev id : Text
id = codes "abc"

abbrev defaults : Options
defaults = record {
  timezone = none;
  helo_codes = none;
  military_codes = none;
  watch_list = none;
  overhead_distance_km = none;
  overhead_altitude_ft = none;
}

-- An item of the watch list without a slug.
abbrev nameless : Options
nameless =
    let item : WatchItem = record {
      slug = none;
      label = none;
      registration = none;
      aircraft_code = none;
      match_blocked = false;
    } in
    record defaults { watch_list = some (item ∷ []) }

abbrev bare : Hass
bare = record { data' = []; apart = []; services = [] }

-- Home Assistant fails to set the platforms up.
abbrev unwilling : Answers
unwilling = record { forwarded = err home_assistant; views = ok tt }

async_setup_entry-err_example :
    IsRaised id
      (async_setup works fresh)
      bare
      (async_setup_entry
        (λ s. some utc)
        none
        id
        (id ∷ [])
        defaults
        defaults
        works
        unwilling
        fresh
        bare).1
unfolding async_setup_entry settings merged tz_name watch_entries or_none
async_setup_entry-err_example =
    async_setup_entry-err (λ s. some utc) none id (id ∷ []) defaults defaults works unwilling fresh
      bare home_assistant refl

-- An item of the watch list without a slug stops the setup before the coordinator is created.
nameless_fails :
    async_setup_entry (λ s. some utc) none id (id ∷ []) defaults nameless works willing fresh bare
    ≡ (err value_error, bare)
unfolding async_setup_entry settings merged tz_name watch_entries from_dict or_none
nameless_fails = refl

async_unload_entry-async_setup_entry_example :
    IsUndone id (id ∷ []) (async_setup works fresh).1 bare (settings_of defaults utc []) (
      async_setup_entry
        (λ s. some utc)
        none
        id
        (id ∷ [])
        defaults
        defaults
        works
        willing
        fresh
        bare)
unfolding settings merged tz_name watch_entries or_none get_coordinator
async_unload_entry-async_setup_entry_example =
    async_unload_entry-async_setup_entry (λ s. some utc) none id (id ∷ []) defaults defaults
      new_conn fresh bare (settings_of defaults utc []) refl refl

async_unload_entry-keeps_example :
    IsLeft id true
      (async_setup_entry
        (λ s. some utc)
        none
        id
        (id ∷ [])
        defaults
        defaults
        works
        willing
        fresh
        bare).1
unfolding settings merged tz_name watch_entries or_none
async_unload_entry-keeps_example =
    async_unload_entry-keeps (λ s. some utc) none id defaults defaults new_conn fresh bare
      (settings_of defaults utc []) true refl

get_coordinator-handle_set_page_example :
    get_coordinator id (handle_set_page (pos 3) (id ∷ []) ((id, fresh) ∷ [])) ≡ (
      if any (λ e. text_eq e id) (id ∷ [])
      then apply_to (async_set_page (pos 3)) (get_coordinator id ((id, fresh) ∷ []))
      else get_coordinator id ((id, fresh) ∷ []))
get_coordinator-handle_set_page_example =
    get_coordinator-handle_set_page (pos 3) (id ∷ []) id ((id, fresh) ∷ []) (refl, tt)

async_setup_leaves_open_example :
    ((async_setup (record works { fr24_loaded = false }) fresh).0 ≡ err not_ready)
    × ((async_setup (record works { fr24_loaded = false }) fresh).1.store ≡ serialized new_conn)
    × ((async_setup (record works { fr24_loaded = false }) fresh).1.queue ≡ [])
async_setup_leaves_open_example = async_setup_leaves_open new_conn fresh false true refl
