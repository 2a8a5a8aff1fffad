-- ===== src/Storage/Repository/Spec.antt =====
-- What each unit of work of storage/repository.py does to the database when no statement fails.
use mathlib.Core.Path.{fun_ext, subst}
use ha_skywatch.Prelude.{
  ℕ, ◌+◌, ◌-◌, ◌*◌, false, Option, none, some, List, [], ◌∷◌, Text, ◌≡◌, refl, ap, ◌∙◌, arith,
}
use ha_skywatch.Time.{Instant, DateTime, utc_text, hour, minute}
use ha_skywatch.Python.{Platform}
use ha_skywatch.Python.Result.{Result, ok, err, Exec, pure, ◌>>=◌, ◌>>◌, continue}
use ha_skywatch.Models.{Entry, Sighting, Movement}
use ha_skywatch.Storage.Schema.{Database}
use ha_skywatch.Storage.Connection.{Conn, IsIdle, commit, SerializedConnection, run}
use ha_skywatch.Storage.Connection.Units.{
  Computes, Computes-pure, Computes-select, Computes-modify, Computes-bind, committing,
  committing-IsAtomic, IsAtomic,
}
use ha_skywatch.Storage.Statements.{
  replace_entry, delete_entries_before, find_entry, delete_entry, insert_position,
  delete_positions_before, insert_sighting_row, insert_movement_row,
}
use ha_skywatch.Storage.Repository.{
  Sample, default_entry_ttl_hours, default_trail_retention_minutes, entry_row, insert_entry,
  take_row, prune_stale_entries, take_entry_time, parse_entry_time, sighting_row, insert_sighting,
  movement_row, insert_movement, position_row, insert_positions, prune_old_positions,
  record_positions, record_entry, join_entry_time, record_exit, record_movement,
}

continue_assoc :
    {A B C : Type 0} (r : Result A) (f : A → Exec Conn B) (g : B → Exec Conn C) (c : Conn)
    → (continue r f >>= g) c ≡ continue r (λ a. f a >>= g) c
continue_assoc (ok a) f g c = refl
continue_assoc (err e) f g c = refl

bind_assoc :
    {A B C : Type 0} (m : Exec Conn A) (f : A → Exec Conn B) (g : B → Exec Conn C)
    → ((m >>= f) >>= g) ≡ (m >>= λ a. (f a >>= g))
bind_assoc m f g = fun_ext λ c. continue_assoc (m c).0 f g (m c).1

commit-pure : (commit >> pure tt) ≡ commit
unfolding commit
commit-pure = fun_ext λ c. ground arith

-- Two steps and a commit, as a unit of work.
two_steps :
    {A B : Type 0} (m : Exec Conn A) (n : Exec Conn B)
    → committing (m >> (n >> pure tt)) ≡ (m >> (n >> commit))
two_steps m n =
    bind_assoc m (λ _. (n >> pure tt)) (λ a. (commit >> pure a))
    ∙ ap (λ k. m >> k) (bind_assoc n (λ _. pure tt) (λ a. (commit >> pure a)))
    ∙ ap (λ k. m >> (n >> k)) commit-pure

abbrev quiet : {A : Type 0} → A × Database → Unit {0} × Database
quiet r = (tt, r.1)

module _ (p : Platform) where
  -- The entry of the flight is replaced, then stale entries are dropped.
  unfoldable pub entry_spec : Instant → Entry → Database → Unit {0} × Database
  entry_spec now entry d =
      let d' = (replace_entry (entry_row p entry) d).1 in
      quiet (delete_entries_before (utc_text (now - default_entry_ttl_hours * hour)) d')

  unfoldable pub take_row_spec : Text → Option Text → Database → Option DateTime × Database
  take_row_spec flight_id none d = (none, d)
  take_row_spec flight_id (some text) d = (parse_entry_time p text, (delete_entry flight_id d).1)

  unfoldable pub take_spec : Option Text → Database → Option DateTime × Database
  take_spec none d = (none, d)
  take_spec (some []) d = (none, d)
  take_spec (some (c ∷ s)) d = take_row_spec (c ∷ s) (find_entry (c ∷ s) d.entries) d

  -- The flight's entry is taken out, and its time goes into the new sighting.
  unfoldable pub exit_spec : Option Text → Sighting → Database → ℕ × Database
  exit_spec flight_id sighting d =
      let (entry_time, d') = take_spec flight_id d in
      insert_sighting_row (sighting_row p (join_entry_time p entry_time sighting)) d'

  unfoldable pub movement_spec : Movement → Database → ℕ × Database
  movement_spec movement = insert_movement_row (movement_row p movement)

  unfoldable pub positions_spec : List Sample → Database → ℕ × Database
  positions_spec [] d = (0, d)
  positions_spec (s ∷ rows) d =
      let (n, d') = insert_position (position_row p s) d in
      let (m, d'') = positions_spec rows d' in (n + m, d'')

  unfoldable pub record_positions_spec : Instant → List Sample → Database → Unit {0} × Database
  record_positions_spec now rows d = quiet (
      delete_positions_before (utc_text (now - default_trail_retention_minutes * minute))
        (positions_spec rows d).1)

  positions-Computes :
      (rows : List Sample) → Computes (positions_spec rows) (insert_positions p rows)
  unfolding positions_spec insert_positions
  positions-Computes [] = Computes-pure 0
  positions-Computes (s ∷ rows) =
      Computes-bind _ _ _ _ (Computes-modify (insert_position (position_row p s))) λ n.
        Computes-bind (positions_spec rows) _ _ _ (positions-Computes rows)
          λ m. Computes-pure (n + m)

  take_row-Computes :
      (flight_id : Text) (row : Option Text)
      → Computes (take_row_spec flight_id row) (take_row p flight_id row)
  unfolding take_row take_row_spec
  take_row-Computes flight_id none = Computes-pure none
  take_row-Computes flight_id (some text) =
      Computes-bind _ _ _ _ (Computes-modify (delete_entry flight_id))
        λ _. Computes-pure (parse_entry_time p text)

  take-Computes :
      (flight_id : Option Text) → Computes (take_spec flight_id) (take_entry_time p flight_id)
  unfolding take_spec take_entry_time
  take-Computes none = Computes-pure none
  take-Computes (some []) = Computes-pure none
  take-Computes (some (c ∷ s)) =
      Computes-bind _ _ _ _ (Computes-select (λ d. find_entry (c ∷ s) d.entries))
        (take_row-Computes (c ∷ s))

  entry-Computes :
      (now : Instant) (entry : Entry)
      → Computes
          (entry_spec now entry)
          (insert_entry p entry >> (prune_stale_entries p now default_entry_ttl_hours >> pure tt))
  unfolding entry_spec insert_entry prune_stale_entries
  entry-Computes now entry =
      Computes-bind _ _ _ _ (Computes-modify (replace_entry (entry_row p entry)))
        λ _. Computes-bind _ _ _ _ (Computes-modify (delete_entries_before _)) λ _. Computes-pure tt

  record_positions-Computes :
      (now : Instant) (rows : List Sample)
      → Computes (record_positions_spec now rows) (
          insert_positions p rows
          >> (prune_old_positions p now default_trail_retention_minutes >> pure tt))
  unfolding record_positions_spec prune_old_positions
  record_positions-Computes now rows =
      Computes-bind (positions_spec rows) _ _ _ (positions-Computes rows) λ _.
        Computes-bind _ _ _ _ (Computes-modify (delete_positions_before _)) λ _. Computes-pure tt

  exit-Computes :
      (flight_id : Option Text) (sighting : Sighting)
      → Computes (exit_spec flight_id sighting) (
          take_entry_time p flight_id >>= λ entry_time.
          insert_sighting p (join_entry_time p entry_time sighting))
  unfolding exit_spec insert_sighting
  exit-Computes flight_id sighting =
      Computes-bind (take_spec flight_id) _ _ _ (take-Computes flight_id) λ entry_time.
        Computes-modify
          (insert_sighting_row (sighting_row p (join_entry_time p entry_time sighting)))

module _ (p : Platform) (s : SerializedConnection) (still_open : s.closed ≡ false)
    (idle : IsIdle s.conn) where
  -- Recording an entry either returns with the entry stored and the stale entries dropped, or
  -- raises because a statement failed and leaves the committed data as it was. Either way no
  -- transaction stays open.
  pub record_entry-IsAtomic :
      (now : Instant) (entry : Entry)
      → IsAtomic (entry_spec p now entry s.conn.committed) s (run (record_entry p now entry) s)
  unfolding record_entry
  record_entry-IsAtomic now entry =
      subst (λ m. IsAtomic (entry_spec p now entry s.conn.committed) s (run m s))
        (two_steps (insert_entry p entry) (prune_stale_entries p now default_entry_ttl_hours))
        (committing-IsAtomic (entry_spec p now entry) _ s (entry-Computes p now entry) still_open
          idle)

  -- Recording positions either stores the samples that are new and drops those past the retention
  -- time, or raises because a statement failed and leaves the committed data as it was. Either way
  -- no transaction stays open.
  pub record_positions-IsAtomic :
      (now : Instant) (rows : List Sample)
      → IsAtomic
          (record_positions_spec p now rows s.conn.committed)
          s
          (run (record_positions p now rows) s)
  unfolding record_positions
  record_positions-IsAtomic now rows =
      subst (λ m. IsAtomic (record_positions_spec p now rows s.conn.committed) s (run m s))
        (two_steps (insert_positions p rows)
          (prune_old_positions p now default_trail_retention_minutes))
        (committing-IsAtomic (record_positions_spec p now rows) _ s
          (record_positions-Computes p now rows) still_open idle)

  -- Recording an exit either takes the flight's entry out, stores the sighting with that entry's
  -- time and returns the new row's id, or raises because a statement failed and leaves the
  -- committed data as it was: an entry is never lost without its sighting. Either way no
  -- transaction stays open.
  pub record_exit-IsAtomic :
      (flight_id : Option Text) (sighting : Sighting)
      → IsAtomic
          (exit_spec p flight_id sighting s.conn.committed)
          s
          (run (record_exit p flight_id sighting) s)
  unfolding record_exit
  record_exit-IsAtomic flight_id sighting =
      subst (λ m. IsAtomic (exit_spec p flight_id sighting s.conn.committed) s (run m s))
        (bind_assoc (take_entry_time p flight_id) _ (λ a. (commit >> pure a)))
        (committing-IsAtomic (exit_spec p flight_id sighting) _ s
          (exit-Computes p flight_id sighting) still_open idle)

  -- Recording a movement either stores it and returns its id, or raises because a statement failed
  -- and leaves the committed data as it was. Either way no transaction stays open.
  pub record_movement-IsAtomic :
      (movement : Movement)
      → IsAtomic (movement_spec p movement s.conn.committed) s (run (record_movement p movement) s)
  unfolding record_movement movement_spec insert_movement
  record_movement-IsAtomic movement =
      committing-IsAtomic (movement_spec p movement) _ s
        (Computes-modify (insert_movement_row (movement_row p movement))) still_open idle
