-- ===== src/Services.antt =====
-- services.py: the handlers of the three services. `hass.data` has a coordinator for each loaded
-- entry; the schemas of the services, of voluptuous, have made the page an int of at least 1.
pub mod Laws
use ha_skywatch.Prelude.{
  Bool, true, false, Option, none, some, List, [], ◌∷◌, ◌++◌, Text, codes, text_eq, if◌then◌else◌,
}
use ha_skywatch.Prelude.Int.{ℤ}
use ha_skywatch.Python.{Platform}
use ha_skywatch.Python.Result.{Error, Result, ok, err, legacy_import, home_assistant, Exec}
use ha_skywatch.Coordinator.{World, async_set_page, async_set_search_term}
use ha_skywatch.LegacyImport.{LegacyFile, Target}
use ha_skywatch.LegacyImport.Window.{
  Bound, absent, written, Strftime, default_dedupe_tolerance_seconds,
}
use ha_skywatch.LegacyImport.Session.{Session, Moment, no_stage}
use ha_skywatch.LegacyImport.Import.{Summary, import_legacy_window}

-- `hass.data[DOMAIN]`, a `dict` by entry id.
abbrev pub Coordinators : Type 0
Coordinators = List (Text × World)

-- `hass.data[DOMAIN].get(entry_id)`
unfoldable pub get_coordinator : Text → Coordinators → Option World
get_coordinator entry_id [] = none
get_coordinator entry_id ((key, w) ∷ coordinators) =
    let rest = get_coordinator entry_id coordinators in
    if text_eq key entry_id then some w else rest

-- A call of a method of the coordinator of an entry, if it has one.
unfoldable pub call_method : (World → World) → Text → Coordinators → Coordinators
call_method method entry_id [] = []
call_method method entry_id ((key, w) ∷ coordinators) =
    let rest = call_method method entry_id coordinators in
    if text_eq key entry_id then (key, method w) ∷ coordinators else (key, w) ∷ rest

-- The loop over `hass.config_entries.async_entries(DOMAIN)`.
unfoldable pub for_entries : (World → World) → List Text → Coordinators → Coordinators
unfolding call_method
for_entries method [] coordinators = coordinators
for_entries method (entry_id ∷ entries) coordinators =
    for_entries method entries (call_method method entry_id coordinators)

-- `_handle_set_page`
unfoldable pub handle_set_page : ℤ → List Text → Coordinators → Coordinators
unfolding for_entries
handle_set_page page entries coordinators = for_entries (async_set_page page) entries coordinators

-- `_handle_set_search_term`
unfoldable pub handle_set_search_term : Text → List Text → Coordinators → Coordinators
unfolding for_entries
handle_set_search_term term entries coordinators =
    for_entries (async_set_search_term term) entries coordinators

-- The data of a call of the import service.
pub record ImportCall : Type 0 where
  pub source_path : Option Text
  pub since : Option Text
  pub until : Option Text

-- The database file and the file `.legacy_imported` beside it.
pub record Files : Type 0 where
  pub target : Target
  pub sentinel : Option Text

abbrev pub default_source_path : Text
default_source_path = codes "/config/sky_sightings.db"

abbrev pub source_path_of : Option Text → Text
source_path_of none = default_source_path
source_path_of (some path) = path

abbrev pub bound_of : Option Text → Bound
bound_of none = absent
bound_of (some s) = written s

-- `sqlite3.connect(target_db_path, timeout=30)`, with what others do until it is closed.
abbrev pub open_session : Target → List Moment → Session
open_session d moments = record {
  committed = d;
  working = d;
  in_transaction = false;
  attached = false;
  stage = no_stage;
  moments = moments;
}

abbrev pub sentinel_text : Text → Text
sentinel_text path = codes "imported from " ++ (path ++ (10 ∷ []))

-- What the handler does with the outcome of the executor's job.
unfoldable pub after_import : Text → Files → Result Summary × Session → Result (Unit {0}) × Files
after_import path files (ok summary, s) =
    (ok tt, record { target = s.committed; sentinel = some (sentinel_text path) })
after_import path files (err legacy_import, s) =
    (err home_assistant, record files { target = s.committed })
after_import path files (err e, s) = (err e, record files { target = s.committed })

module _ (p : Platform) (f : Strftime) (file_at : Text → Option LegacyFile) where
  -- `_handle_import_legacy`, given the configured entries; closing the connection drops what is not
  -- committed.
  unfoldable pub handle_import_legacy : ImportCall → List Text → List Moment → Exec Files (Unit {0})
  unfolding after_import import_legacy_window
  handle_import_legacy call [] moments files = (err home_assistant, files)
  handle_import_legacy call (entry ∷ entries) moments files =
      let path = source_path_of call.source_path in
      after_import path files (
        import_legacy_window p f (file_at path) (bound_of call.since) (bound_of call.until)
          default_dedupe_tolerance_seconds false (open_session files.target moments))
