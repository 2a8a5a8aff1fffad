-- ===== src/Classify.antt =====
-- custom_components/skywatch/classify.py
pub mod Laws
use ha_skywatch.Prelude.{
  Bool, true, false, not, ◌&&◌, ◌||◌, Option, none, some, List, [], ◌∷◌, Text, codes, upper,
  is_empty, any, text_eq, if◌then◌else◌, map,
}
use ha_skywatch.Python.{or_none, or_empty, or_else}
use ha_skywatch.Python.Result.{Result, ok, err, value_error}

-- `aircraft_code.upper() in {c.upper() for c in codes}`
unfoldable pub has_code : Option Text → List Text → Bool
has_code none known = false
has_code (some code) known =
    if is_empty code then false else any (λ c. text_eq (upper code) c) (map upper known)

unfoldable pub is_helicopter : Option Text → List Text → Bool
unfolding has_code
is_helicopter aircraft_code helo_codes = has_code aircraft_code helo_codes

unfoldable pub is_military : Option Text → List Text → Bool
unfolding has_code
is_military aircraft_code military_codes = has_code aircraft_code military_codes

pub record WatchEntry : Type 0 where
  pub slug : Text
  pub label : Text
  pub registration : Option Text
  pub aircraft_code : Option Text
  pub match_blocked : Bool

-- One item of the watch list in the config entry's options.
pub record WatchItem : Type 0 where
  pub slug : Option Text
  pub label : Option Text
  pub registration : Option Text
  pub aircraft_code : Option Text
  pub match_blocked : Bool

unfoldable pub from_dict : WatchItem → Result WatchEntry
unfolding or_none or_else
from_dict data' = elim (or_none data'.slug) [
  | none ↦ err value_error
  | some slug ↦ ok (record {
    slug = slug;
    label = elim (or_none data'.label) [ none ↦ slug | some label ↦ label ];
    registration = or_none data'.registration;
    aircraft_code = or_none data'.aircraft_code;
    match_blocked = data'.match_blocked;
  })
]

-- The keys of a flight that `match_watch` reads.
pub record FlightKeys : Type 0 where
  pub aircraft_registration : Option Text
  pub registration : Option Text
  pub aircraft_code : Option Text
  pub callsign : Option Text

-- The two tests in the loop of `match_watch`.
unfoldable pub entry_matches : Text → Text → Text → WatchEntry → Bool
entry_matches reg code callsign entry =
    (not (is_empty (or_empty entry.registration))
      && (not (is_empty reg) && text_eq (upper (or_empty entry.registration)) reg))
    || (entry.match_blocked
        && (not (is_empty (or_empty entry.aircraft_code))
            && (text_eq (upper (or_empty entry.aircraft_code)) code
                && (text_eq callsign (codes "Blocked") && is_empty reg))))

-- The loop of `match_watch`.
unfoldable pub first_match : Text → Text → Text → List WatchEntry → Option WatchEntry
first_match reg code callsign [] = none
first_match reg code callsign (entry ∷ rest) =
    let later = first_match reg code callsign rest in
    if entry_matches reg code callsign entry then some entry else later

unfoldable pub match_watch : FlightKeys → List WatchEntry → Option WatchEntry
unfolding first_match or_else
match_watch flight watch_entries =
    first_match (upper (or_empty (or_else flight.aircraft_registration flight.registration)))
      (upper (or_empty flight.aircraft_code)) (or_empty flight.callsign) watch_entries
