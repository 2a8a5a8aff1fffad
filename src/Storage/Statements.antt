-- ===== src/Storage/Statements.antt =====
-- The SQL statements of storage/repository.py as functions on the database, and the trails that
-- `fetch_trails` fills from the rows it selects.
use ha_skywatch.Prelude.{
  ℕ, ◌+◌, Bool, true, false, not, ◌&&◌, ◌||◌, Option, none, some, List, [], ◌∷◌, ◌++◌, Text,
  text_lt, text_eq, filter, count_if, any, if◌then◌else◌,
}
use ha_skywatch.Prelude.Sort.{sort_by}
use ha_skywatch.Python.{Float, nan}
use ha_skywatch.Python.Result.{Result, ok, err, key_error}
use ha_skywatch.Storage.Schema.{SightingRow, EntryRow, MovementRow, PositionRow, Database}

-- INSERT OR REPLACE INTO entries
unfoldable pub replace_entry : EntryRow → Database → Unit {0} × Database
replace_entry row d = (
  tt,
  record d {
    entries = filter (λ e. not (text_eq e.flight_id row.flight_id)) d.entries ++ (row ∷ []);
  },
)

-- DELETE FROM entries WHERE entry_time < ?
unfoldable pub delete_entries_before : Text → Database → ℕ × Database
delete_entries_before cutoff d = (
  count_if (λ e. text_lt e.entry_time cutoff) d.entries,
  record d { entries = filter (λ e. not (text_lt e.entry_time cutoff)) d.entries },
)

-- SELECT entry_time FROM entries WHERE flight_id = ?
unfoldable pub find_entry : Text → List EntryRow → Option Text
find_entry flight_id [] = none
find_entry flight_id (e ∷ entries) =
    if text_eq e.flight_id flight_id then some e.entry_time else find_entry flight_id entries

-- DELETE FROM entries WHERE flight_id = ?
unfoldable pub delete_entry : Text → Database → Unit {0} × Database
delete_entry flight_id d =
    (tt, record d { entries = filter (λ e. not (text_eq e.flight_id flight_id)) d.entries })

abbrev pub has_position : Text → Text → List PositionRow → Bool
has_position flight_id ts = any (λ r. text_eq r.flight_id flight_id && text_eq r.ts ts)

-- SQLite stores nan as NULL.
abbrev pub is_null_real : Float → Bool
is_null_real nan = true
is_null_real _ = false

-- INSERT OR IGNORE INTO flight_positions: a row that breaks the primary key or a NOT NULL is left
-- out. The result is the row count.
unfoldable pub insert_position : PositionRow → Database → ℕ × Database
insert_position row d =
    if is_null_real row.lat
      || (is_null_real row.lon || has_position row.flight_id row.ts d.flight_positions)
    then (0, d)
    else (1, record d { flight_positions = d.flight_positions ++ (row ∷ []) })

-- DELETE FROM flight_positions WHERE ts < ?
unfoldable pub delete_positions_before : Text → Database → ℕ × Database
delete_positions_before cutoff d = (
  count_if (λ r. text_lt r.ts cutoff) d.flight_positions,
  record d { flight_positions = filter (λ r. not (text_lt r.ts cutoff)) d.flight_positions },
)

-- INSERT INTO sightings; the result is `cursor.lastrowid`.
unfoldable pub insert_sighting_row : (ℕ → SightingRow) → Database → ℕ × Database
insert_sighting_row row d =
    let id = d.sightings_seq + 1 in
    (id, record d { sightings = d.sightings ++ (row id ∷ []); sightings_seq = id })

-- INSERT INTO airport_movements
unfoldable pub insert_movement_row : (ℕ → MovementRow) → Database → ℕ × Database
insert_movement_row row d =
    let id = d.movements_seq + 1 in
    (id, record d { airport_movements = d.airport_movements ++ (row id ∷ []); movements_seq = id })

-- `dict`s from flight ids to points [lon, lat], in the order of insertion.
abbrev pub Trails : Type 0
Trails = List (Text × List (Float × Float))

-- `{fid: [] for fid in ids}`
unfoldable pub empty_trails : List Text → Trails
empty_trails [] = []
empty_trails (fid ∷ ids) =
    let rest = empty_trails ids in (fid, []) ∷ filter (λ (j, _). not (text_eq j fid)) rest

-- `out[fid].append([lon, lat])`
unfoldable pub append_point : Text → Float × Float → Trails → Result Trails
append_point fid point [] = err key_error
append_point fid point ((j, points) ∷ out) =
    if text_eq j fid
    then ok ((j, points ++ (point ∷ [])) ∷ out)
    else (elim (append_point fid point out) [ err e ↦ err e | ok out' ↦ ok ((j, points) ∷ out') ])

-- The loop over the selected rows.
unfoldable pub append_points : List PositionRow → Trails → Result Trails
append_points [] out = ok out
append_points (r ∷ rows) out = elim (append_point r.flight_id (r.lon, r.lat) out) [
  | err e ↦ err e
  | ok out' ↦ append_points rows out'
]

-- SELECT … WHERE flight_id IN (…) ORDER BY ts ASC
unfoldable pub select_positions : List Text → Database → List PositionRow
select_positions ids d =
    sort_by (λ a b. text_lt a.ts b.ts)
      (filter (λ r. any (text_eq r.flight_id) ids) d.flight_positions)
