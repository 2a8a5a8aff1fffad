-- ===== src/DataBuilder/Laws.antt =====
-- data_builder.py: what the assembled data say of one another.
use ha_skywatch.Prelude.{
  ℕ, ◌+◌, ◌-◌, ◌*◌, ◌≤◌, ◌<◌, Bool, true, false, Option, none, some, List, [], ◌∷◌, Text, text_eq,
  text_eq_iff, text_eq_refl, if◌then◌else◌, ◌≡◌, refl, ◌∙◌, arith, text_le_trans,
}
use ha_skywatch.Prelude.Int.{ℤ}
use ha_skywatch.Python.{Float, Platform, Zone}
use ha_skywatch.Time.{Instant, utc_text, hour, end_of_time, compare-utc_text}
use ha_skywatch.Classify.{WatchEntry}
use ha_skywatch.Storage.Schema.{Database}
use ha_skywatch.Storage.Queries.Counts.{
  count_from, count_since, query_active_1h, query_active_24h, count_if_mono,
}
use ha_skywatch.Storage.Queries.Watch.{WatchResult}
use ha_skywatch.DataBuilder.{
  Clock, Watches, Data, set_watch, get_watch, watch_of, add_watches, build_data,
}

active_mono :
    (a b : Instant) (d : Database)
    → a < end_of_time
    → b < end_of_time
    → b - 24 * hour ≤ a - 1 * hour
    → query_active_1h a d ≤ query_active_24h b d
unfolding query_active_1h query_active_24h count_since count_from
active_mono a b d a_fits b_fits h = count_if_mono _ _ d.sightings (λ r.
    text_le_trans (utc_text (b - 24 * hour)) (utc_text (a - 1 * hour)) r.exit_time
      (ground (arith, compare-utc_text (b - 24 * hour) (a - 1 * hour) (omega arith) (omega arith))))

get_watch-set_watch :
    (j slug : Text) (result : WatchResult) (watches : Watches)
    → get_watch j (set_watch slug result watches)
      ≡ (if text_eq slug j then some result else get_watch j watches)
unfolding get_watch set_watch
get_watch-set_watch j slug result [] = refl
get_watch-set_watch j slug result ((key, old) ∷ watches) = ground (
  arith,
  get_watch-set_watch j slug result watches,
  text_eq_iff key slug,
  text_eq_iff slug j,
  text_eq_iff key j,
  text_eq_refl slug,
  text_eq_refl key,
)

-- The last entry of the watch list with this slug.
abbrev pub last_entry : Text → List WatchEntry → Option WatchEntry
last_entry slug [] = none
last_entry slug (entry ∷ entries) = elim (last_entry slug entries) [
  | some later ↦ some later
  | none ↦ if text_eq entry.slug slug then some entry else none
]

abbrev pub answer_or :
    (WatchEntry → WatchResult) → Option WatchEntry → Option WatchResult → Option WatchResult
answer_or f none old = old
answer_or f (some entry) old = some (f entry)

module _ (p : Platform) (tz : Zone) (d : Database) where
  abbrev pub answer : (WatchEntry → Instant) → WatchEntry → WatchResult
  answer clock entry = watch_of p tz d (clock entry) entry

  get_watch-add_watches :
      (clock : WatchEntry → Instant) (slug : Text) (entries : List WatchEntry) (watches : Watches)
      → get_watch slug (add_watches p tz d clock entries watches)
        ≡ answer_or (answer clock) (last_entry slug entries) (get_watch slug watches)
  unfolding add_watches
  get_watch-add_watches clock slug [] watches = refl
  get_watch-add_watches clock slug (entry ∷ entries) watches =
      get_watch-add_watches clock slug entries (set_watch entry.slug (answer clock entry) watches)
      ∙ rw (get_watch-set_watch slug entry.slug (answer clock entry) watches)
          (joined (last_entry slug entries) (text_eq entry.slug slug))
    where
      joined :
          (o : Option WatchEntry) (b : Bool)
          → answer_or
              (answer clock)
              o
              (if b then some (answer clock entry) else get_watch slug watches)
            ≡ answer_or
                (answer clock)
                (elim o [ some later ↦ some later | none ↦ if b then some entry else none ])
                (get_watch slug watches)
      joined none true = refl
      joined none false = refl
      joined (some later) b = refl

module _ (p : Platform) (tz : Zone) (d : Database) (clock : Clock) (page : ℕ) (search : Text)
    (military : List Text) (watch_list : List WatchEntry) (distance_km : Float) (altitude_ft : ℤ)
    (in_area : ℕ) where
  abbrev built : Data
  built = build_data p tz d clock page search military watch_list distance_km altitude_ft in_area

  -- The active count of a day is no less than that of an hour, though the clock is read between
  -- the two, as long as that takes less than 23 hours; and both count what is in the area.
  pub build_data_active :
      clock.active_1h < end_of_time
      → clock.active_24h < end_of_time
      → clock.active_24h ≤ clock.active_1h + 23 * hour
      → (built.active_1h ≤ built.active_24h) × (in_area ≤ built.active_1h)
  unfolding build_data
  build_data_active a_fits b_fits h = (
    omega (arith, active_mono clock.active_1h clock.active_24h d a_fits b_fits (omega arith)),
    omega arith,
  )

  -- Under the slug of an entry of the watch list the data have that entry's watch query, and of
  -- several entries with one slug the last one's; under any other slug they have nothing.
  pub get_watch-build_data :
      (slug : Text)
      → get_watch slug built.watches
        ≡ answer_or (answer p tz d clock.watch) (last_entry slug watch_list) none
  unfolding build_data get_watch
  get_watch-build_data slug = get_watch-add_watches p tz d clock.watch slug watch_list []
