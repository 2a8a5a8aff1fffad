-- ===== src/Coordinator/Jobs.antt =====
-- storage/repository.py, as the executor runs it: the rows that a job adds if no statement fails.
use ha_skywatch.Prelude.{
  ℕ, suc, ◌+◌, false, Option, none, some, List, [], ◌∷◌, ◌++◌, Text, ◌≡◌, refl, ap, ◌∙◌, arith, inl,
  inr, if_either, length, length-append,
}
use ha_skywatch.Python.{Platform}
use ha_skywatch.Python.Result.{Result}
use ha_skywatch.Time.{Instant}
use ha_skywatch.Models.{Entry, Sighting, Movement}
use ha_skywatch.Storage.Schema.{Database}
use ha_skywatch.Storage.Connection.{SerializedConnection, IsIdle}
use ha_skywatch.Storage.Connection.Units.{IsAtomic}
use ha_skywatch.Storage.Statements.{
  replace_entry, delete_entries_before, delete_entry, insert_position, delete_positions_before,
  insert_sighting_row, insert_movement_row,
}
use ha_skywatch.Storage.Repository.{Sample, position_row}
use ha_skywatch.Storage.Repository.Spec.{
  entry_spec, take_row_spec, take_spec, exit_spec, movement_spec, positions_spec,
  record_positions_spec, record_entry-IsAtomic, record_exit-IsAtomic, record_movement-IsAtomic,
  record_positions-IsAtomic,
}
use ha_skywatch.Storage.History.{entry, exit, movement, positions, do_job}

-- The numbers of rows that grow with the events.
abbrev pub rows_of : Database → ℕ × ℕ
rows_of d = (length d.sightings, length d.airport_movements)

length-snoc : {A : Type 0} (xs : List A) (x : A) → length (xs ++ (x ∷ [])) ≡ suc (length xs)
length-snoc xs x = omega (arith, length-append xs (x ∷ []))

module _ (p : Platform) where
  rows-entry_spec :
      (now : Instant) (e : Entry) (d : Database) → rows_of (entry_spec p now e d).1 ≡ rows_of d
  unfolding entry_spec replace_entry delete_entries_before
  rows-entry_spec now e d = refl

  rows-take_row_spec :
      (flight_id : Text) (row : Option Text) (d : Database)
      → rows_of (take_row_spec p flight_id row d).1 ≡ rows_of d
  unfolding take_row_spec delete_entry
  rows-take_row_spec flight_id none d = refl
  rows-take_row_spec flight_id (some text) d = refl

  rows-take_spec :
      (flight_id : Option Text) (d : Database) → rows_of (take_spec p flight_id d).1 ≡ rows_of d
  unfolding take_spec
  rows-take_spec none d = refl
  rows-take_spec (some []) d = refl
  rows-take_spec (some (c ∷ s)) d = rows-take_row_spec (c ∷ s) _ d

  rows-exit_spec :
      (flight_id : Option Text) (s : Sighting) (d : Database)
      → rows_of (exit_spec p flight_id s d).1
        ≡ (suc (length d.sightings), length d.airport_movements)
  unfolding exit_spec insert_sighting_row
  rows-exit_spec flight_id s d =
      rw length-snoc (ap (λ (r : ℕ × ℕ). (suc r.0, r.1)) (rows-take_spec flight_id d))

  rows-movement_spec :
      (m : Movement) (d : Database)
      → rows_of (movement_spec p m d).1 ≡ (length d.sightings, suc (length d.airport_movements))
  unfolding movement_spec insert_movement_row
  rows-movement_spec m d = rw length-snoc refl

  rows-insert_position : (row : _) (d : Database) → rows_of (insert_position row d).1 ≡ rows_of d
  unfolding insert_position
  rows-insert_position row d =
      if_either (λ (r : ℕ × Database). rows_of r.1 ≡ rows_of d) _ _ _ refl refl

  rows-positions_spec :
      (rows : List Sample) (d : Database) → rows_of (positions_spec p rows d).1 ≡ rows_of d
  unfolding positions_spec
  rows-positions_spec [] d = refl
  rows-positions_spec (s ∷ rows) d =
      rows-positions_spec rows _ ∙ rows-insert_position (position_row p s) d

  rows-record_positions_spec :
      (now : Instant) (rows : List Sample) (d : Database)
      → rows_of (record_positions_spec p now rows d).1 ≡ rows_of d
  unfolding record_positions_spec delete_positions_before
  rows-record_positions_spec now rows d = rows-positions_spec rows d

-- What a unit of work leaves behind if no statement fails: so many sightings and movements more.
pub record IsDone (s t : SerializedConnection) (sightings movements : ℕ) : Type 0 where
  pub still_open : t.closed ≡ false
  pub idle : IsIdle t.conn
  pub no_faults : t.conn.faults ≡ []
  pub more_sightings :
      length t.conn.committed.sightings ≡ length s.conn.committed.sightings + sightings
  pub more_movements :
      length t.conn.committed.airport_movements
      ≡ length s.conn.committed.airport_movements + movements

IsDone-of :
    {A : Type 0} (r : A × Database) (s : SerializedConnection) (o : Result A × SerializedConnection)
    (rows : ℕ × ℕ) (sightings movements : ℕ)
    → IsAtomic r s o
    → s.conn.faults ≡ []
    → rows_of r.1 ≡ rows
    → rows.0 ≡ length s.conn.committed.sightings + sightings
    → rows.1 ≡ length s.conn.committed.airport_movements + movements
    → IsDone s o.1 sightings movements
IsDone-of r s o rows sightings movements atomic no_faults e a b = elim atomic.outcome [
  | inl (_, committed, faults) ↦ record {
    still_open = atomic.still_open;
    idle = atomic.idle;
    no_faults = faults no_faults;
    more_sightings =
        ap (λ (d : Database). length d.sightings) committed ∙ ap (λ (x : ℕ × ℕ). x.0) e ∙ a;
    more_movements =
        ap (λ (d : Database). length d.airport_movements) committed ∙ ap (λ (x : ℕ × ℕ). x.1) e ∙ b;
  }
  | inr (_, _, _, faulty) ↦ absurd (faulty no_faults)
]

module _ (p : Platform) (s : SerializedConnection) (still_open : s.closed ≡ false)
    (idle : IsIdle s.conn) (no_faults : s.conn.faults ≡ []) where
  abbrev stored : Database
  stored = s.conn.committed

  pub IsDone-entry : (now : Instant) (e : Entry) → IsDone s (do_job p (entry now e) s) 0 0
  unfolding do_job
  IsDone-entry now e =
      IsDone-of _ s _ _ 0 0 (record_entry-IsAtomic p s still_open idle now e) no_faults
        (rows-entry_spec p now e stored) (omega arith) (omega arith)

  pub IsDone-exit :
      (flight_id : Option Text) (sighting : Sighting)
      → IsDone s (do_job p (exit flight_id sighting) s) 1 0
  unfolding do_job
  IsDone-exit flight_id sighting =
      IsDone-of _ s _ _ 1 0 (record_exit-IsAtomic p s still_open idle flight_id sighting) no_faults
        (rows-exit_spec p flight_id sighting stored) (omega arith) (omega arith)

  pub IsDone-movement : (m : Movement) → IsDone s (do_job p (movement m) s) 0 1
  unfolding do_job
  IsDone-movement m =
      IsDone-of _ s _ _ 0 1 (record_movement-IsAtomic p s still_open idle m) no_faults
        (rows-movement_spec p m stored) (omega arith) (omega arith)

  pub IsDone-positions :
      (now : Instant) (rows : List Sample) → IsDone s (do_job p (positions now rows) s) 0 0
  unfolding do_job
  IsDone-positions now rows =
      IsDone-of _ s _ _ 0 0 (record_positions-IsAtomic p s still_open idle now rows) no_faults
        (rows-record_positions_spec p now rows stored) (omega arith) (omega arith)
