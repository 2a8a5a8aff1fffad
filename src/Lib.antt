-- ===== src/Lib.antt =====
-- Skywatch, a Home Assistant integration that records the aircraft seen near a home in SQLite
-- and answers a dashboard's queries (custom_components/skywatch, from where the paths below
-- start).
--
-- The parts and their files:
--
-- - Prelude, Prelude/*: lists, texts as code points, Boolean tests, stable sorting, keys.
--   Python, Python/Result: Python values, errors, the monad of code that may raise and changes
--   a state, and what is taken from outside: float(), datetime.fromisoformat, str.upper of a
--   search term and time zones, as the fields of Platform and Zone.
-- - Time, Time/*: datetime as microseconds since year 1; the two texts of a timestamp that meet
--   in the database.
-- - Models: models.py. Normalizers: storage/normalizers.py. Classify: classify.py.
-- - Storage/Schema: storage/schema.py, each table a list of rows in rowid order.
--   Storage/Connection: storage/connection.py over a connection with a committed state, the
--   state that the open transaction sees, and a schedule that says which statements fail.
--   Storage/Statements: the SQL statements of storage/repository.py as functions on the tables.
--   Storage/Repository: its functions, under their names without the leading underscore.
--   Storage/Repository/Spec: what each unit of work computes. Storage/History: any sequence of
--   units of work.
-- - Storage/Queries/*: storage/queries.py, each query under its name, a SELECT as a filter, a
--   stable sort and a limit.
-- - Storage/Migrations: storage/migrations.py, over tables of any columns; the loop's fuel is
--   the number of versions to go, which is exactly its number of rounds.
-- - Backends/Base: backends/base.py. Backends/Fr24: backends/fr24.py; Backends/Fr24/Bus: its
--   subscription to the bus.
-- - Coordinator: coordinator.py, its state together with the connection object, the bus, the
--   tasks of the event loop that have not started and the jobs of the executor that have not
--   run. Coordinator/Capture: the trail capture. Coordinator/Run: a job in the executor, and an
--   event of the provider. Coordinator/Refresh: the refresh. Coordinator/Steps: what may happen
--   next. Coordinator/Setup: its setup. Coordinator/Handling, Jobs, Counting, NoLoss, Drain,
--   Safety, Events: the proofs.
-- - DataBuilder: data_builder.py. DataBuilder/Watching: its watch query beside the live
--   matcher. Http, Http/View: http.py. Http/Lines, Http/Answer: what the map shows. Entities:
--   sensor.py, binary_sensor.py, number.py, text.py, switch.py, button.py. Const: const.py.
-- - LegacyImport: legacy_import.py, its tables of cells, the copied columns and the insertion.
--   LegacyImport/Window: the bounds, the plan of a table, the rows in the window and those that
--   are no duplicates. LegacyImport/Session: a connection with its transaction, the attached
--   file and the stages, and a list of moments, one for each statement, which say what others
--   write before it and whether it fails. LegacyImport/Import: import_legacy_window.
--   LegacyImport/Copy: import_legacy_db. LegacyImport/Spec: what an undisturbed import
--   computes. The other files of LegacyImport are proofs.
-- - ConfigFlow: config_flow.py. Setup: __init__.py, with the coordinator's async_setup in
--   Coordinator/Setup, and what Home Assistant answers to the platforms and the views as the
--   record Answers. Setup/Laws, Setup/Unloading: the proofs. Services: services.py. Backfill:
--   scripts/backfill-legacy-window.py of the repository.
-- - Tests/*: the theorems at concrete inputs.
--
-- A listener calls the coordinator, which fires an event and creates a task; a task, once
-- started, gives a unit of work to the executor, which runs it on the connection object; the
-- data builder reads the committed tables. The code's datetime.now is an argument. A statement
-- that reads does not open a transaction; one that writes does, and on failure changes no row.
-- SQLite's order among rows with equal sort keys is taken to be the rowid order, its order
-- among groups with equal counts the order of the keys. The function upper is SQLite's UPPER,
-- and str.upper on ASCII text: the registrations, codes and callsigns of the watch list and of
-- the classifiers are taken to be ASCII, while str.upper of a search term is a field of
-- Platform. Integers that are given to SQLite are taken to fit 64 bits; beyond, the
-- OverflowError of sqlite3 is one of the failing statements of the schedule. Instants lie
-- before year 10000, where datetime ends. Decimal printing runs on fuel, the number itself plus
-- one, which is enough as each step divides by ten.
--
-- In the legacy import the file does not change while it is read, its times and those of the
-- target are texts or missing, the target has been migrated, cells are stored as they are
-- given, without the affinities of columns, the tolerance is not negative, and SQLite's
-- strftime is a parameter that says which text a time moved by some seconds has. Paths are
-- texts in pathlib's normal form, and an option is missing or has a value of its type.
--
-- Not modelled: the PRAGMAs of the connection, the indexes, logging, the measured time of the
-- write lock, the timers, the registration of entities, platforms and views with Home
-- Assistant, the attributes of the sensors, the front end and the deployment scripts.
pub mod Prelude
pub mod Time
pub mod Python
pub mod Models
pub mod Normalizers
pub mod Classify
pub mod Storage
pub mod Backends
pub mod Coordinator
pub mod DataBuilder
pub mod Const
pub mod Http
pub mod Entities
pub mod Tests
pub mod LegacyImport
pub mod Services
pub mod ConfigFlow
pub mod Setup
pub mod Backfill
