-- ===== src/Tests/Pure.antt =====
-- The normalizers and the classifiers on a few values.
use ha_skywatch.Prelude.{
  ◌<◌, ◌*◌, ◌^◌, ◌+◌, none, some, [], ◌∷◌, codes, upper, upper_char, is_empty, false,
}
use ha_skywatch.Prelude.Int.{negsuc, neg_part}
use ha_skywatch.Python.{or_else, truncate}
use ha_skywatch.Normalizers.Laws.{truncate_bounds}
use ha_skywatch.Classify.{WatchEntry, FlightKeys, match_watch}
use ha_skywatch.Classify.Laws.{IsFirst, IsAbout, match_watch-IsFirst}

truncate_bounds_example :
    neg_part (negsuc (2 ^ 1075)) < (neg_part (truncate (negsuc (2 ^ 1075))) + 1) * 2 ^ 1074
truncate_bounds_example = (truncate_bounds (negsuc (2 ^ 1075))).3

abbrev watched : WatchEntry
watched = record {
  slug = codes "euua";
  label = codes "G-EUUA";
  registration = some (codes "g-euua");
  aircraft_code = none;
  match_blocked = false;
}

abbrev flight : FlightKeys
flight = record {
  aircraft_registration = some (codes "G-EUUA");
  registration = none;
  aircraft_code = some (codes "A320");
  callsign = some (codes "BAW123");
}

match_watch-IsFirst_example :
    IsFirst
      (IsAbout (codes "G-EUUA") (codes "A320") (codes "BAW123"))
      (watched ∷ [])
      (match_watch flight (watched ∷ []))
unfolding upper or_else upper_char is_empty
match_watch-IsFirst_example = match_watch-IsFirst flight (watched ∷ [])
