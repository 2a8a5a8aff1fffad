-- ===== src/ConfigFlow/Laws.antt =====
-- config_flow.py: what an entry that is created holds.
use mathlib.Core.Path.{subst}
use ha_skywatch.Prelude.{
  ℕ, Bool, true, false, Option, none, some, [], ◌∷◌, Text, upper, strip, is_empty, length, ◌≡◌, inl,
  inr, refl, sym, ap, ◌∙◌, arith, Bool-cases, upper_idem,
}
use ha_skywatch.Prelude.Int.{ℤ}
use ha_skywatch.Python.{Float, or_none, or_empty}
use ha_skywatch.ConfigFlow.{
  UserInput, EntryData, FormError, FlowResult, create_entry, within, the_radius, iata_of,
  all_letters, is_bad_iata, form_error, async_step_user, answer,
}

module _ (is_letter : ℕ → Bool) where
  -- The airport is left out, or has three letters.
  abbrev pub IsAirport : Option Text → Type 0
  IsAirport none = Unit
  IsAirport (some iata) =
      (length iata ≡ 3) × (all_letters is_letter iata ≡ true) × (upper iata ≡ iata)

  pub record IsChecked (input : UserInput) (fr24_loaded configured : Bool) (entry : EntryData)
      : Type 0 where
    pub latitude : input.home_latitude ≡ some entry.home_latitude
    pub latitude_within : within 90 entry.home_latitude ≡ true
    pub longitude : input.home_longitude ≡ some entry.home_longitude
    pub longitude_within : within 180 entry.home_longitude ≡ true
    pub airport : IsAirport entry.airport_iata
    pub radius : entry.radius_km ≡ the_radius input.radius_km
    pub loaded : fr24_loaded ≡ true
    pub new : configured ≡ false

  airport-IsAirport :
      (iata : Text)
      → is_bad_iata is_letter iata ≡ false
      → upper iata ≡ iata
      → IsAirport (or_none (some iata))
  unfolding is_bad_iata or_none is_empty
  airport-IsAirport [] h u = tt
  airport-IsAirport (c ∷ s) h u = (ground (arith, h), ground (arith, h), u)

  abbrev filled_in : Float → Float → Option Text → Option ℤ → UserInput
  filled_in lat lon iata radius = record {
    home_latitude = some lat;
    home_longitude = some lon;
    airport_iata = iata;
    radius_km = radius;
  }

  form_error-none :
      (lat lon : Float) (iata : Option Text) (radius : Option ℤ) (fr24_loaded : Bool)
      → form_error is_letter (filled_in lat lon iata radius) fr24_loaded ≡ none
      → (within 90 lat ≡ true)
        × (within 180 lon ≡ true)
        × (is_bad_iata is_letter (iata_of iata) ≡ false)
        × (fr24_loaded ≡ true)
  unfolding form_error
  form_error-none lat lon iata radius fr24_loaded h = ground (arith, h)

  abbrev entry_in : FlowResult → EntryData → EntryData
  entry_in (create_entry e) d = e
  entry_in _ d = d

  upper-iata_of : (iata : Option Text) → upper (iata_of iata) ≡ iata_of iata
  unfolding iata_of
  upper-iata_of iata = upper_idem (strip (or_empty iata))

  created :
      (lat lon : Float) (iata : Option Text) (radius : Option ℤ) (configured : Bool)
      (entry : EntryData)
      → answer is_letter (filled_in lat lon iata radius) configured none ≡ create_entry entry
      → is_bad_iata is_letter (iata_of iata) ≡ false
      → (configured ≡ false)
        × (entry.home_latitude ≡ lat)
        × (entry.home_longitude ≡ lon)
        × IsAirport entry.airport_iata
        × (entry.radius_km ≡ the_radius radius)
  created lat lon iata radius true entry h good = cc
  created lat lon iata radius false entry h good =
      let same = ap (λ r. entry_in r entry) h in
      (
        refl,
        sym (ap (λ e. e.home_latitude) same),
        sym (ap (λ e. e.home_longitude) same),
        subst IsAirport (ap (λ e. e.airport_iata) same)
            (airport-IsAirport (iata_of iata) good (upper-iata_of iata)),
        sym (ap (λ e. e.radius_km) same),
      )

  checked :
      (lat lon : Float) (iata : Option Text) (radius : Option ℤ) (fr24_loaded configured : Bool)
      (entry : EntryData) (e : Option FormError)
      → form_error is_letter (filled_in lat lon iata radius) fr24_loaded ≡ e
      → answer is_letter (filled_in lat lon iata radius) configured e ≡ create_entry entry
      → IsChecked (filled_in lat lon iata radius) fr24_loaded configured entry
  checked lat lon iata radius fr24_loaded configured entry (some e) found h = cc
  checked lat lon iata radius fr24_loaded configured entry none passed h =
      let (north, east, good, loaded) = form_error-none lat lon iata radius fr24_loaded passed in
      let (new, at_lat, at_lon, airport, at_radius) =
        created lat lon iata radius configured entry h good in
      record {
        latitude = ap some (sym at_lat);
        latitude_within = ap (within 90) at_lat ∙ north;
        longitude = ap some (sym at_lon);
        longitude_within = ap (within 180) at_lon ∙ east;
        airport = airport;
        radius = at_radius;
        loaded = loaded;
        new = new;
      }

  IsChecked-input :
      (lat lon : Option Float) (iata : Option Text) (radius : Option ℤ)
      (fr24_loaded configured : Bool) (entry : EntryData)
      → let input : UserInput = record {
        home_latitude = lat;
        home_longitude = lon;
        airport_iata = iata;
        radius_km = radius;
      } in
        async_step_user is_letter (some input) fr24_loaded configured ≡ create_entry entry
        → IsChecked input fr24_loaded configured entry
  unfolding async_step_user form_error
  IsChecked-input none lon iata radius fr24_loaded configured entry h = cc
  IsChecked-input (some lat) none iata radius fr24_loaded configured entry h =
      elim (Bool-cases (within 90 lat)) [
        | inr p ↦ ground (arith, h, p)
        | inl p ↦ ground (arith, h, p)
      ]
  IsChecked-input (some lat) (some lon) iata radius fr24_loaded configured entry h =
      checked lat lon iata radius fr24_loaded configured entry
        (form_error is_letter (filled_in lat lon iata radius) fr24_loaded) refl h

  -- The entry that the config flow creates has the coordinates given, within their bounds, the radius
  -- given or the default, and no airport or one of three letters in upper case; Flightradar24 is
  -- loaded and Skywatch was not configured before.
  pub async_step_user-IsChecked :
      (input : UserInput) (fr24_loaded configured : Bool) (entry : EntryData)
      → async_step_user is_letter (some input) fr24_loaded configured ≡ create_entry entry
      → IsChecked input fr24_loaded configured entry
  async_step_user-IsChecked input fr24_loaded configured entry h =
      IsChecked-input input.home_latitude input.home_longitude input.airport_iata input.radius_km
        fr24_loaded configured entry h
