-- ===== src/Classify/Laws.antt =====
-- What the classifiers and the watch list say of a flight.
use ha_skywatch.Prelude.{
  Bool, true, not, ◌&&◌, Option, none, some, List, [], ◌∷◌, Text, codes, upper, is_empty, text_eq,
  text_eq_iff, map, ◌≡◌, ◌≢◌, ◌↔◌, inl, inr, refl, arith, upper_idem, Bool-cases, Option-cases,
}
use ha_skywatch.Python.{or_empty, or_else}
use ha_skywatch.Classify.{
  has_code, is_helicopter, is_military, WatchEntry, FlightKeys, entry_matches, first_match,
  match_watch,
}

map-upper_idem : (known : List Text) → map upper (map upper known) ≡ map upper known
map-upper_idem [] = refl
map-upper_idem (c ∷ known) = ground (arith, upper_idem c, map-upper_idem known)

is_empty-upper : (s : Text) → is_empty (upper s) ≡ is_empty s
unfolding is_empty upper
is_empty-upper [] = refl
is_empty-upper (c ∷ s) = refl

-- The helicopter and military tests do not see the case of letters, neither in the aircraft's
-- code nor in the configured codes.
pub is_military-upper :
    (code : Text) (known : List Text)
    → (is_military (some (upper code)) known ≡ is_military (some code) known)
      × (is_military (some code) (map upper known) ≡ is_military (some code) known)
      × (is_helicopter (some (upper code)) known ≡ is_helicopter (some code) known)
      × (is_helicopter (some code) (map upper known) ≡ is_helicopter (some code) known)
unfolding is_military is_helicopter has_code
is_military-upper code known =
    let e = is_empty-upper code in
    let u = upper_idem code in let m = map-upper_idem known in (rw (e, u), rw m, rw (e, u), rw m)

-- What it means that a watch entry is about a flight with this registration, type code and
-- callsign.
pub data IsAbout (reg code callsign : Text) (entry : WatchEntry) : Type 0 where
  by_registration :
      (r : Text)
      → entry.registration ≡ some r
      → r ≢ []
      → upper r ≡ reg
      → IsAbout reg code callsign entry
  by_block :
      (c : Text)
      → entry.match_blocked ≡ true
      → entry.aircraft_code ≡ some c
      → c ≢ []
      → upper c ≡ code
      → callsign ≡ codes "Blocked"
      → reg ≡ []
      → IsAbout reg code callsign entry

-- The first element for which a predicate holds, or none where it holds for no element.
pub data IsFirst {A : Type 0} (P : A → Type 0) : List A → Option A → Type 0 where
  never : IsFirst P [] none
  here : (a : A) (rest : List A) → P a → IsFirst P (a ∷ rest) (some a)
  later : (a : A) (rest : List A) (o : Option A) → ¬ P a → IsFirst P rest o → IsFirst P (a ∷ rest) o

is_empty_iff : (s : Text) → (is_empty s ≡ true) ↔ (s ≡ [])
unfolding is_empty
is_empty_iff [] = (λ _. refl, λ _. refl)
is_empty_iff (c ∷ s) = (λ h. cc, λ h. cc)

abbrev has_registration : Text → WatchEntry → Bool
has_registration reg entry =
    not (is_empty (or_empty entry.registration))
    && (not (is_empty reg) && text_eq (upper (or_empty entry.registration)) reg)

abbrev has_blocked_code : Text → Text → Text → WatchEntry → Bool
has_blocked_code reg code callsign entry =
    entry.match_blocked
    && (not (is_empty (or_empty entry.aircraft_code))
        && (text_eq (upper (or_empty entry.aircraft_code)) code
            && (text_eq callsign (codes "Blocked") && is_empty reg)))

has_registration_lem :
    (reg code callsign : Text) (entry : WatchEntry)
    → has_registration reg entry ≡ true
    → IsAbout reg code callsign entry
unfolding is_empty
has_registration_lem reg code callsign entry h = elim (Option-cases entry.registration) [
  | inl e ↦ absurd (ground (arith, e, h))
  | inr (r, e) ↦
      by_registration r e (ground (arith, h, e, is_empty_iff r))
        (ground (arith, h, e, text_eq_iff (upper r) reg))
]

has_blocked_code_lem :
    (reg code callsign : Text) (entry : WatchEntry)
    → has_blocked_code reg code callsign entry ≡ true
    → IsAbout reg code callsign entry
unfolding is_empty
has_blocked_code_lem reg code callsign entry h = elim (Option-cases entry.aircraft_code) [
  | inl e ↦ absurd (ground (arith, e, h))
  | inr (c, e) ↦
      by_block c (ground (arith, h)) e (ground (arith, h, e, is_empty_iff c))
        (ground (arith, h, e, text_eq_iff (upper c) code))
        (ground (arith, h, text_eq_iff callsign (codes "Blocked")))
        (ground (arith, h, is_empty_iff reg))
]

entry_matches_lem :
    (reg code callsign : Text) (entry : WatchEntry)
    → entry_matches reg code callsign entry ≡ true
    → IsAbout reg code callsign entry
unfolding entry_matches
entry_matches_lem reg code callsign entry h = elim (Bool-cases (has_registration reg entry)) [
  | inl e ↦ has_registration_lem reg code callsign entry e
  | inr e ↦ has_blocked_code_lem reg code callsign entry (ground (arith, h, e))
]

IsAbout_lem :
    (reg code callsign : Text) (entry : WatchEntry)
    → IsAbout reg code callsign entry
    → entry_matches reg code callsign entry ≡ true
unfolding entry_matches upper
IsAbout_lem reg code callsign entry (by_registration r e n u) =
    ground (arith, e, n, u, is_empty_iff r, is_empty_iff reg, text_eq_iff (upper r) reg)
IsAbout_lem reg code callsign entry (by_block c b e n u k l) = ground (
  arith,
  b,
  e,
  n,
  u,
  k,
  l,
  is_empty_iff c,
  is_empty_iff reg,
  text_eq_iff (upper c) code,
  text_eq_iff callsign (codes "Blocked"),
)

first_match_lem :
    (reg code callsign : Text) (watch_entries : List WatchEntry)
    → IsFirst
        (IsAbout reg code callsign)
        watch_entries
        (first_match reg code callsign watch_entries)
unfolding first_match
first_match_lem reg code callsign [] = never
first_match_lem reg code callsign (entry ∷ rest) =
    elim (Bool-cases (entry_matches reg code callsign entry)) [
      | inl e ↦ rw e (here entry rest (entry_matches_lem reg code callsign entry e))
      | inr e ↦ rw e (
          later entry rest (first_match reg code callsign rest)
            (λ a. ground (arith, e, IsAbout_lem reg code callsign entry a))
            (first_match_lem reg code callsign rest))
    ]

-- `match_watch` gives the first entry of the watch list that is about the flight: one with the
-- flight's registration, letters of either case being equal, or one whose type code the flight has
-- while its callsign is "Blocked" and its registration is not known. It gives none only where no
-- entry is about the flight.
pub match_watch-IsFirst :
    (flight : FlightKeys) (watch_entries : List WatchEntry)
    → IsFirst
        (IsAbout
          (upper (or_empty (or_else flight.aircraft_registration flight.registration)))
          (upper (or_empty flight.aircraft_code))
          (or_empty flight.callsign))
        watch_entries
        (match_watch flight watch_entries)
unfolding match_watch
match_watch-IsFirst flight watch_entries = first_match_lem _ _ _ watch_entries
