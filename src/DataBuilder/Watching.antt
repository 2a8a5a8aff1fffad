-- ===== src/DataBuilder/Watching.antt =====
-- data_builder.py: the watch query of an entry of the watch list beside the live matcher.
use ha_skywatch.Prelude.{
  ℕ, Bool, true, false, ◌&&◌, Option, none, some, List, [], ◌∷◌, ◌≡◌, ◌≢◌, refl, sym, ◌∙◌, ap,
  arith, Text, is_empty, upper, strip, lstrip, count_if, count_if_none, All, Bool-cases, inl, inr,
  if◌then◌else◌,
}
use ha_skywatch.Python.{Platform, Zone, or_empty}
use ha_skywatch.Time.{Instant}
use ha_skywatch.Classify.{WatchEntry, entry_matches}
use ha_skywatch.Storage.Schema.{SightingRow, Database}
use ha_skywatch.Storage.Queries.Decorate.{Decorated}
use ha_skywatch.Storage.Queries.Watch.{
  query_watch_aircraft, watch_result, watch_where, watch_registration, watch_fingerprint,
  IsStripped, watch_where-eq-entry_matches, is_empty-upper,
}
use ha_skywatch.DataBuilder.{watch_of}

-- The live matcher takes a flight with the row's keys for the entry.
abbrev pub is_taken_for : WatchEntry → SightingRow → Bool
is_taken_for entry r =
    entry_matches (upper (or_empty r.registration)) (upper (or_empty r.aircraft_code))
      (or_empty r.callsign) entry

count_if_congr :
    {A : Type 0} (p q : A → Bool) (P : A → Type 0) (xs : List A)
    → ((x : A) → P x → p x ≡ q x)
    → All P xs
    → count_if p xs ≡ count_if q xs
count_if_congr p q P [] h all = refl
count_if_congr p q P (x ∷ xs) h (at, all) = ground (arith, h x at, count_if_congr p q P xs h all)

module _ (p : Platform) (tz : Zone) (d : Database) (now : Instant) where
  count-watch_result :
      (n : ℕ) (reg : Text) (rows : List Decorated) → (watch_result p n reg now rows).count ≡ n
  unfolding watch_result
  count-watch_result n reg [] = refl
  count-watch_result n reg (r ∷ rows) = refl

  count-query :
      (reg : Text) (code : Option Text)
      → (query_watch_aircraft p reg tz code now d).count ≡ (
          if is_empty (upper (strip reg)) && is_empty (upper (strip (or_empty code)))
          then 0
          else count_if
              (watch_where (upper (strip reg)) (upper (strip (or_empty code))))
              d.sightings)
  unfolding query_watch_aircraft
  count-query reg code =
      elim (Bool-cases (is_empty (upper (strip reg)) && is_empty (upper (strip (or_empty code))))) [
        | inl e ↦ rw e (count-watch_result 0 [] [])
        | inr e ↦ rw e (count-watch_result _ _ _)
      ]

  fingerprint_of :
      (entry : WatchEntry)
      → upper (strip (or_empty (if entry.match_blocked then entry.aircraft_code else none)))
        ≡ watch_fingerprint entry
  unfolding upper strip lstrip
  fingerprint_of entry = elim (Bool-cases entry.match_blocked) [
    | inl e ↦ rw e refl
    | inr e ↦ rw e refl
  ]

  -- The count of the query from the two identifiers.
  abbrev counted : Text → Text → ℕ
  counted reg fp =
      if is_empty reg && is_empty fp then 0 else count_if (watch_where reg fp) d.sightings

  untaken :
      (entry : WatchEntry) (r : SightingRow)
      → IsStripped entry
      → (is_empty (watch_registration entry) && is_empty (watch_fingerprint entry)) ≡ true
      → is_taken_for entry r ≡ false
  unfolding entry_matches
  untaken entry r (reg_stripped, code_stripped) no_id =
      let reg = or_empty entry.registration in
      let code = or_empty entry.aircraft_code in
      ground (
        arith,
        no_id,
        ap (λ s. is_empty (upper s)) reg_stripped,
        ap (λ s. is_empty (upper s)) code_stripped,
        is_empty-upper reg,
        is_empty-upper code,
      )

  -- For a watch entry without outer spaces, on sightings of which none has the empty text for its
  -- registration, the entry's watch query counts exactly the sightings whose flight the live matcher
  -- takes for the entry.
  pub count-watch_of :
      (entry : WatchEntry)
      → IsStripped entry
      → All (λ (r : SightingRow). r.registration ≢ some []) d.sightings
      → (watch_of p tz d now entry).count ≡ count_if (is_taken_for entry) d.sightings
  unfolding watch_of
  count-watch_of entry stripped rows =
      count-query (or_empty entry.registration)
        (if entry.match_blocked then entry.aircraft_code else none)
      ∙ ap (counted (watch_registration entry)) (fingerprint_of entry)
      ∙ elim (Bool-cases
          (is_empty (watch_registration entry) && is_empty (watch_fingerprint entry))) [
            | inl no_id ↦ rw no_id (
                sym (
                  count_if_none (is_taken_for entry) d.sightings
                    (λ r. untaken entry r stripped no_id)))
            | inr some_id ↦ rw some_id (
                count_if_congr _ _ (λ (r : SightingRow). r.registration ≢ some []) d.sightings
                  (λ r h. watch_where-eq-entry_matches entry r stripped some_id h) rows)
          ]
