-- ===== src/Storage/Repository/Dwell.antt =====
-- storage/repository.py: `record_entry` and a later `record_exit` of the same flight.
use ha_skywatch.Prelude.{
  ℕ, ◌+◌, ◌-◌, ◌*◌, ◌/◌, ◌<◌, ◌≤◌, not, none, some, List, [], ◌∷◌, ◌++◌, Text, ◌≡◌, refl, ◌∙◌,
  arith, text_eq, text_eq_refl, filter,
}
use ha_skywatch.Time.{Instant, aware, utc_text, hour, second, end_of_time, compare-utc_text}
use ha_skywatch.Python.{Platform}
use ha_skywatch.Models.{Entry, Sighting}
use ha_skywatch.Storage.Schema.{EntryRow, SightingRow, Database}
use ha_skywatch.Storage.Statements.{find_entry, delete_entry, insert_sighting_row}
use ha_skywatch.Storage.Repository.{iso, parse_entry_time, sighting_row, join_entry_time}
use ha_skywatch.Storage.Repository.Invariant.{IsValid}
use ha_skywatch.Storage.Repository.Expiry.{find_entry-entry_spec}
use ha_skywatch.Storage.Repository.Spec.{entry_spec, take_row_spec, take_spec, exit_spec}

find_entry-delete :
    (k : Text) (es : List EntryRow)
    → find_entry k (filter (λ e. not (text_eq e.flight_id k)) es) ≡ none
unfolding find_entry
find_entry-delete k [] = refl
find_entry-delete k (e ∷ es) = ground (arith, find_entry-delete k es)

-- What `record_exit` does with a flight whose entry is stored.
exit_found :
    (p : Platform) (c : ℕ) (s : Text) (text : Text) (sighting : Sighting) (d : Database)
    → find_entry (c ∷ s) d.entries ≡ some text
    → (exit_spec p (some (c ∷ s)) sighting d).1
      ≡ (insert_sighting_row
          (sighting_row p (join_entry_time p (parse_entry_time p text) sighting))
          (delete_entry (c ∷ s) d).1).1
unfolding exit_spec take_spec
exit_found p c s text sighting d e = rw e (unfold take_row_spec in refl)

seconds_text : (t : Instant) → utc_text (t / second * second) ≡ utc_text t
unfolding utc_text
seconds_text t = rw (whole t)
  where
    whole : (t : ℕ) → t / second * second / second ≡ t / second
    whole t = omega arith

module _ (p : Platform) (now t : Instant) (entry : Entry) (sighting : Sighting) (d : Database)
    (c : ℕ) (s : Text) where
  abbrev after_entry : Database
  after_entry = (entry_spec p now entry d).1

  abbrev after_exit : Database
  after_exit = (exit_spec p (some (c ∷ s)) sighting after_entry).1

  -- The new row of the exit, with the time of the entry.
  abbrev joined_row : SightingRow
  joined_row = record (sighting_row p sighting (after_entry.sightings_seq + 1)) {
    entry_time = some (utc_text t);
  }

  entry_found :
      IsValid d
      → entry.flight_id ≡ c ∷ s
      → entry.entry_time ≡ aware t
      → t < end_of_time
      → now < end_of_time
      → now - 2 * hour ≤ t
      → find_entry (c ∷ s) after_entry.entries ≡ some (utc_text t)
  entry_found v id at t_fits now_fits in_time =
      find_entry-entry_spec p now entry d (c ∷ s) v
      ∙ rw (id, at, text_eq_refl)
          (unfold iso in ground (arith, compare-utc_text t (now - 2 * hour) t_fits (omega arith)))

  -- An entry recorded no later than two hours after its time, and then the exit of the same
  -- flight: the exit's row is the last, it has the entry's time to the second, and the entry is
  -- gone. It is assumed that `datetime.fromisoformat` reads the stored time back.
  pub exit-after_entry :
      IsValid d
      → entry.flight_id ≡ c ∷ s
      → entry.entry_time ≡ aware t
      → t < end_of_time
      → now < end_of_time
      → now - 2 * hour ≤ t
      → parse_entry_time p (utc_text t) ≡ some (aware (t / second * second))
      → (after_exit.sightings ≡ after_entry.sightings ++ (joined_row ∷ []))
        × (find_entry (c ∷ s) after_exit.entries ≡ none)
  exit-after_entry v id at t_fits now_fits in_time reads_back =
      let found = entry_found v id at t_fits now_fits in_time in
      rw (exit_found p c s (utc_text t) sighting after_entry found, reads_back)
        (unfold insert_sighting_row delete_entry join_entry_time sighting_row iso in
          (rw seconds_text, find_entry-delete (c ∷ s) after_entry.entries))
