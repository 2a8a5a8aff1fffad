-- ===== src/Storage/Repository/Lookup.antt =====
-- Lookups by flight id in the `entries` table.
use ha_skywatch.Prelude.{
  Bool, false, none, some, List, [], ◌∷◌, ◌++◌, Text, ◌≡◌, refl, arith, text_eq, text_eq_iff,
  filter, any, if◌then◌else◌, Bool-cases, inl, inr,
}
use ha_skywatch.Prelude.Unique.{IsUnique, any-filter}
use ha_skywatch.Storage.Schema.{EntryRow}
use ha_skywatch.Storage.Statements.{find_entry}
use ha_skywatch.Storage.Repository.Invariant.{same_flight}

abbrev is_flight : Text → EntryRow → Bool
is_flight k e = text_eq e.flight_id k

find_entry-absent :
    (k : Text) (es : List EntryRow) → any (is_flight k) es ≡ false → find_entry k es ≡ none
unfolding find_entry
find_entry-absent k [] h = refl
find_entry-absent k (e ∷ es) h = ground (arith, find_entry-absent k es)

pub find_entry-append :
    (k : Text) (es : List EntryRow) (row : EntryRow)
    → any (is_flight k) es ≡ false
    → find_entry k (es ++ (row ∷ []))
      ≡ (if text_eq row.flight_id k then some row.entry_time else none)
unfolding find_entry
find_entry-append k [] row h = refl
find_entry-append k (e ∷ es) row h = ground (arith, find_entry-append k es row)

-- A filter by the time keeps or drops the one row of a flight.
pub find_entry-filter_time :
    (keep : Text → Bool) (k : Text) (es : List EntryRow)
    → IsUnique same_flight es
    → find_entry k (filter (λ e. keep e.entry_time) es)
      ≡ elim (find_entry k es) [ none ↦ none | some text ↦ if keep text then some text else none ]
unfolding find_entry
find_entry-filter_time keep k [] u = refl
find_entry-filter_time keep k (e ∷ es) (new, u) = elim (Bool-cases (text_eq e.flight_id k)) [
  | inl same ↦
      let absent : any (is_flight k) es ≡ false = same_any e k es ((text_eq_iff _ _).0 same) new in
      ground (
        arith,
        find_entry-absent k (filter (λ e. keep e.entry_time) es),
        any-filter (is_flight k) (λ e. keep e.entry_time) es absent,
      )
  | inr other ↦ ground (arith, find_entry-filter_time keep k es u)
]
  where
    same_any :
        (e : EntryRow) (k : Text) (es : List EntryRow)
        → e.flight_id ≡ k
        → any (same_flight e) es ≡ false
        → any (is_flight k) es ≡ false
    same_any e k [] h a = refl
    same_any e k (x ∷ es) h a =
        ground
          (arith, same_any e k es h, text_eq_iff e.flight_id x.flight_id, text_eq_iff x.flight_id k)
