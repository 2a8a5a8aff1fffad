-- ===== src/Storage/Repository/Expiry.antt =====
-- What `record_entry` leaves in the `entries` table, as lookups by flight id see it.
use ha_skywatch.Prelude.{
  ◌-◌, ◌*◌, ◌/◌, ◌<◌, false, not, Option, none, some, List, [], ◌∷◌, ◌++◌, Text, ◌≡◌, refl, ◌∙◌,
  arith, text_eq, text_eq_iff, text_lt, filter, if◌then◌else◌, ltb,
}
use ha_skywatch.Time.{Instant, utc_text, hour, second, end_of_time, compare-utc_text}
use ha_skywatch.Python.{Platform}
use ha_skywatch.Models.{Entry}
use ha_skywatch.Storage.Schema.{EntryRow, Database}
use ha_skywatch.Storage.Statements.{replace_entry, delete_entries_before, find_entry}
use ha_skywatch.Storage.Repository.{default_entry_ttl_hours, entry_row, iso}
use ha_skywatch.Storage.Repository.Invariant.{IsValid, replace_entry-IsValid}
use ha_skywatch.Storage.Repository.Lookup.{find_entry-filter_time}
use ha_skywatch.Storage.Repository.Spec.{entry_spec}

-- The time of an entry, if it is not before the cutoff.
abbrev pub fresh : Text → Option Text → Option Text
fresh cutoff none = none
fresh cutoff (some text) = if not (text_lt text cutoff) then some text else none

find_entry-replace :
    (j : Text) (row : EntryRow) (es : List EntryRow)
    → find_entry j (filter (λ e. not (text_eq e.flight_id row.flight_id)) es ++ (row ∷ []))
      ≡ (if text_eq row.flight_id j then some row.entry_time else find_entry j es)
unfolding find_entry
find_entry-replace j row [] = refl
find_entry-replace j row (e ∷ es) = ground (
  arith,
  find_entry-replace j row es,
  text_eq_iff e.flight_id row.flight_id,
  text_eq_iff row.flight_id j,
  text_eq_iff e.flight_id j,
)

-- After an entry is recorded, the entry of a flight is the new one if it is that flight's and the
-- old one if not, and it is gone if it is stale at the time of the recording.
pub find_entry-entry_spec :
    (p : Platform) (now : Instant) (entry : Entry) (d : Database) (j : Text)
    → IsValid d
    → find_entry j (entry_spec p now entry d).1.entries
      ≡ fresh (utc_text (now - default_entry_ttl_hours * hour)) (
          if text_eq entry.flight_id j
          then some (iso p entry.entry_time)
          else find_entry j d.entries)
unfolding entry_spec delete_entries_before
find_entry-entry_spec p now entry d j v =
    find_entry-filter_time _ j _ (replace_entry-IsValid (entry_row p entry) d v).entries_unique
    ∙ (unfold replace_entry entry_row in rw (find_entry-replace j (entry_row p entry) d.entries))

-- Recording an entry drops another flight's entry exactly when that one is, in whole seconds, more
-- than two hours old.
pub record_entry_expiry :
    (p : Platform) (now : Instant) (entry : Entry) (d : Database) (j : Text) (t : Instant)
    → IsValid d
    → t < end_of_time
    → now < end_of_time
    → text_eq entry.flight_id j ≡ false
    → find_entry j d.entries ≡ some (utc_text t)
    → find_entry j (entry_spec p now entry d).1.entries
      ≡ (if ltb (t / second) ((now - 2 * hour) / second) then none else some (utc_text t))
record_entry_expiry p now entry d j t v t_fits now_fits other found =
    find_entry-entry_spec p now entry d j v
    ∙ rw (other, found) (ground (arith, compare-utc_text t (now - 2 * hour) t_fits (omega arith)))
