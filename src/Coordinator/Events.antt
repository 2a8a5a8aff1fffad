-- ===== src/Coordinator/Events.antt =====
-- coordinator.py: what the event `skywatch_sighting` says of the watch list.
use ha_skywatch.Prelude.{Option, none, some, List, [], ◌∷◌, Text, codes, upper, ◌≡◌, ◌≢◌, refl, ap}
use ha_skywatch.Python.{or_empty, or_else}
use ha_skywatch.Models.{Entry}
use ha_skywatch.Classify.{WatchEntry, match_watch}
use ha_skywatch.Classify.Laws.{
  IsAbout, by_registration, by_block, IsFirst, never, here, later, match_watch-IsFirst,
}
use ha_skywatch.Coordinator.{Config, skywatch_event, entry_event}

no_match :
    {P : WatchEntry → Type 0} (entries : List WatchEntry) (o : Option WatchEntry)
    → IsFirst P entries o
    → ((e : WatchEntry) → ¬ P e)
    → o ≡ none
no_match _ _ never h = refl
no_match _ _ (here a rest at) h = absurd (h a at)
no_match _ _ (later a rest o not_a first) h = no_match rest o first h

upper_empty : (r : Text) → upper r ≡ [] → r ≡ []
unfolding upper
upper_empty [] h = refl
upper_empty (c ∷ r) h = cc

not-IsAbout :
    (code callsign : Text) (entry : WatchEntry)
    → callsign ≢ codes "Blocked"
    → ¬ IsAbout [] code callsign entry
not-IsAbout code callsign entry h (by_registration r e n u) = n (upper_empty r u)
not-IsAbout code callsign entry h (by_block c b e n u k l) = h k

unmatched :
    (code callsign : Option Text) (entries : List WatchEntry)
    → or_empty callsign ≢ codes "Blocked"
    → match_watch
        (record {
          aircraft_registration = none;
          registration = none;
          aircraft_code = code;
          callsign = callsign;
        })
        entries
      ≡ none
unfolding upper or_else
unmatched code callsign entries h =
    no_match entries _
      (match_watch-IsFirst
        (record {
          aircraft_registration = none;
          registration = none;
          aircraft_code = code;
          callsign = callsign;
        })
        entries)
      (λ e. not-IsAbout (upper (or_empty code)) (or_empty callsign) e h)

-- The event of an aircraft that enters names no entry of the watch list unless the aircraft's
-- callsign is "Blocked": the registration, by which the list is matched, is not passed on.
pub entry_event_unwatched :
    (cfg : Config) (e : Entry)
    → or_empty e.callsign ≢ codes "Blocked"
    → ((entry_event cfg e).watch_slug ≡ none) × ((entry_event cfg e).watch_label ≡ none)
unfolding entry_event skywatch_event
entry_event_unwatched cfg e h =
    let none_found = unmatched e.aircraft_code e.callsign cfg.watch_list h in
    (ap slug_of none_found, ap label_of none_found)
  where
    slug_of : Option WatchEntry → Option Text
    slug_of o = elim o [ none ↦ none | some w ↦ some w.slug ]

    label_of : Option WatchEntry → Option Text
    label_of o = elim o [ none ↦ none | some w ↦ some w.label ]
