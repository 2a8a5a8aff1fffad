-- ===== src/Storage/Repository/Invariant.antt =====
-- The keys of the four tables of storage/schema.py, through the units of work.
use ha_skywatch.Prelude.{
  ℕ, Bool, ◌&&◌, ◌||◌, not, Option, none, some, List, [], ◌∷◌, Text, ◌≡◌, refl, arith, text_eq,
  filter, inl, inr, Bool-cases,
}
use ha_skywatch.Prelude.Unique.{
  IsUnique, IsGrowing, IsUnique-filter, IsUnique-append, IsGrowing-append, any-filter_not,
}
use ha_skywatch.Time.{Instant}
use ha_skywatch.Python.{Platform}
use ha_skywatch.Models.{Entry, Sighting, Movement}
use ha_skywatch.Storage.Schema.{SightingRow, EntryRow, MovementRow, PositionRow, Database}
use ha_skywatch.Storage.Statements.{
  replace_entry, delete_entries_before, delete_entry, insert_position, has_position,
  delete_positions_before, insert_sighting_row, insert_movement_row, is_null_real,
}
use ha_skywatch.Storage.Repository.{Sample, entry_row, sighting_row, movement_row, position_row}
use ha_skywatch.Storage.Repository.Spec.{
  entry_spec, take_row_spec, take_spec, exit_spec, movement_spec, positions_spec,
  record_positions_spec,
}

abbrev pub same_flight : EntryRow → EntryRow → Bool
same_flight a b = text_eq a.flight_id b.flight_id

abbrev pub same_sample : PositionRow → PositionRow → Bool
same_sample a b = text_eq a.flight_id b.flight_id && text_eq a.ts b.ts

-- The primary keys hold, and AUTOINCREMENT has given ids in order.
pub record IsValid (d : Database) : Type 0 where
  pub entries_unique : IsUnique same_flight d.entries
  pub positions_unique : IsUnique same_sample d.flight_positions
  pub sightings_grow : IsGrowing (λ (r : SightingRow). r.id) 0 d.sightings d.sightings_seq
  pub movements_grow : IsGrowing (λ (r : MovementRow). r.id) 0 d.airport_movements d.movements_seq

pub replace_entry-IsValid :
    (row : EntryRow) (d : Database) → IsValid d → IsValid (replace_entry row d).1
unfolding replace_entry
replace_entry-IsValid row d v = record {
  entries_unique =
      IsUnique-append same_flight _ row
        (any-filter_not (λ e. same_flight e row) (λ e. not (same_flight e row)) d.entries
          (λ x h. ground arith))
        (IsUnique-filter same_flight _ d.entries v.entries_unique);
  positions_unique = v.positions_unique;
  sightings_grow = v.sightings_grow;
  movements_grow = v.movements_grow;
}

keep_entries-IsValid :
    (q : EntryRow → Bool) (d : Database)
    → IsValid d
    → IsValid (record d { entries = filter q d.entries })
keep_entries-IsValid q d v = record {
  entries_unique = IsUnique-filter same_flight q d.entries v.entries_unique;
  positions_unique = v.positions_unique;
  sightings_grow = v.sightings_grow;
  movements_grow = v.movements_grow;
}

insert_position-IsValid :
    (row : PositionRow) (d : Database) → IsValid d → IsValid (insert_position row d).1
unfolding insert_position
insert_position-IsValid row d v =
    elim (Bool-cases (
      is_null_real row.lat
      || (is_null_real row.lon || has_position row.flight_id row.ts d.flight_positions))) [
        | inl left_out ↦ rw left_out v
        | inr fresh ↦ rw fresh (record {
          entries_unique = v.entries_unique;
          positions_unique =
              IsUnique-append same_sample d.flight_positions row (ground arith) v.positions_unique;
          sightings_grow = v.sightings_grow;
          movements_grow = v.movements_grow;
        })
      ]

insert_sighting_row-IsValid :
    (row : ℕ → SightingRow) (d : Database)
    → ((n : ℕ) → (row n).id ≡ n)
    → IsValid d
    → IsValid (insert_sighting_row row d).1
unfolding insert_sighting_row
insert_sighting_row-IsValid row d h v = record {
  entries_unique = v.entries_unique;
  positions_unique = v.positions_unique;
  sightings_grow = IsGrowing-append _ 0 d.sightings d.sightings_seq _ (h _) v.sightings_grow;
  movements_grow = v.movements_grow;
}

insert_movement_row-IsValid :
    (row : ℕ → MovementRow) (d : Database)
    → ((n : ℕ) → (row n).id ≡ n)
    → IsValid d
    → IsValid (insert_movement_row row d).1
unfolding insert_movement_row
insert_movement_row-IsValid row d h v = record {
  entries_unique = v.entries_unique;
  positions_unique = v.positions_unique;
  sightings_grow = v.sightings_grow;
  movements_grow =
      IsGrowing-append _ 0 d.airport_movements d.movements_seq _ (h _) v.movements_grow;
}

module _ (p : Platform) where
  pub entry_spec-IsValid :
      (now : Instant) (entry : Entry) (d : Database)
      → IsValid d
      → IsValid (entry_spec p now entry d).1
  unfolding entry_spec delete_entries_before
  entry_spec-IsValid now entry d v =
      keep_entries-IsValid _ _ (replace_entry-IsValid (entry_row p entry) d v)

  pub take_row_spec-IsValid :
      (flight_id : Text) (row : Option Text) (d : Database)
      → IsValid d
      → IsValid (take_row_spec p flight_id row d).1
  unfolding take_row_spec delete_entry
  take_row_spec-IsValid flight_id none d v = v
  take_row_spec-IsValid flight_id (some text) d v = keep_entries-IsValid _ d v

  pub take_spec-IsValid :
      (flight_id : Option Text) (d : Database) → IsValid d → IsValid (take_spec p flight_id d).1
  unfolding take_spec
  take_spec-IsValid none d v = v
  take_spec-IsValid (some []) d v = v
  take_spec-IsValid (some (c ∷ s)) d v = take_row_spec-IsValid (c ∷ s) _ d v

  pub exit_spec-IsValid :
      (flight_id : Option Text) (sighting : Sighting) (d : Database)
      → IsValid d
      → IsValid (exit_spec p flight_id sighting d).1
  unfolding exit_spec sighting_row
  exit_spec-IsValid flight_id sighting d v =
      insert_sighting_row-IsValid _ _ (λ n. refl) (take_spec-IsValid flight_id d v)

  pub movement_spec-IsValid :
      (movement : Movement) (d : Database) → IsValid d → IsValid (movement_spec p movement d).1
  unfolding movement_spec movement_row
  movement_spec-IsValid movement d v = insert_movement_row-IsValid _ d (λ n. refl) v

  pub positions_spec-IsValid :
      (rows : List Sample) (d : Database) → IsValid d → IsValid (positions_spec p rows d).1
  unfolding positions_spec
  positions_spec-IsValid [] d v = v
  positions_spec-IsValid (s ∷ rows) d v =
      positions_spec-IsValid rows _ (insert_position-IsValid (position_row p s) d v)

  pub record_positions_spec-IsValid :
      (now : Instant) (rows : List Sample) (d : Database)
      → IsValid d
      → IsValid (record_positions_spec p now rows d).1
  unfolding record_positions_spec delete_positions_before
  record_positions_spec-IsValid now rows d v =
      let v' = positions_spec-IsValid rows d v in
      record {
        entries_unique = v'.entries_unique;
        positions_unique = IsUnique-filter same_sample _ _ v'.positions_unique;
        sightings_grow = v'.sightings_grow;
        movements_grow = v'.movements_grow;
      }
