-- ===== src/ConfigFlow.antt =====
-- config_flow.py: `async_step_user`. The form's schema has made numbers of the coordinates and of
-- the radius. Which characters are letters to `str.isalpha` is a parameter.
pub mod Laws
use ha_skywatch.Prelude.{
  ℕ, suc, ◌*◌, ◌-◌, ◌^◌, Bool, true, false, not, ◌&&◌, ◌||◌, ◌==◌, Option, none, some, List, [],
  ◌∷◌, Text, codes, upper, strip, is_empty, length, if◌then◌else◌,
}
use ha_skywatch.Prelude.Int.{ℤ, pos, negsuc, ltb_ℤ}
use ha_skywatch.Python.{Float, finite, or_empty, or_none}

-- `user_input`, where the user has given one.
pub record UserInput : Type 0 where
  pub home_latitude : Option Float
  pub home_longitude : Option Float
  pub airport_iata : Option Text
  pub radius_km : Option ℤ

-- The data of the entry that is created; its source is "fr24".
pub record EntryData : Type 0 where
  pub home_latitude : Float
  pub home_longitude : Float
  pub airport_iata : Option Text
  pub radius_km : ℤ

-- The value of `errors["base"]`.
pub data FormError : Type 0 where
  invalid_latitude invalid_longitude invalid_iata fr24_not_loaded : FormError

pub data FlowResult : Type 0 where
  show_form : Option FormError → FlowResult
  already_configured : FlowResult
  create_entry : EntryData → FlowResult

abbrev pub default_radius_km : ℤ
default_radius_km = pos 50

-- n as a double, in units of 2⁻¹⁰⁷⁴
abbrev pub whole : ℕ → ℕ
whole n = n * 2 ^ 1074

-- `-n <= x <= n` for a positive n, which fails for nan and the infinities.
unfoldable pub within : ℕ → Float → Bool
within n (finite z) = not (ltb_ℤ z (negsuc (whole n - 1))) && not (ltb_ℤ (pos (whole n)) z)
within n _ = false

-- `x is None or not -n <= float(x) <= n`
abbrev pub is_invalid : ℕ → Option Float → Bool
is_invalid n none = true
is_invalid n (some x) = not (within n x)

abbrev pub the_radius : Option ℤ → ℤ
the_radius none = default_radius_km
the_radius (some radius) = radius

-- `(user_input.get(CONF_AIRPORT_IATA) or "").strip().upper()`
unfoldable pub iata_of : Option Text → Text
iata_of iata = upper (strip (or_empty iata))

module _ (is_letter : ℕ → Bool) where
  -- `str.isalpha` of a text that is not empty
  unfoldable pub all_letters : Text → Bool
  all_letters [] = true
  all_letters (c ∷ s) = is_letter c && all_letters s

  -- `iata and (len(iata) != 3 or not iata.isalpha())`
  unfoldable pub is_bad_iata : Text → Bool
  unfolding all_letters
  is_bad_iata iata = not (is_empty iata) && (not (length iata == 3) || not (all_letters iata))

  -- The chain of tests.
  unfoldable pub form_error : UserInput → Bool → Option FormError
  unfolding within iata_of is_bad_iata
  form_error input fr24_loaded =
      if is_invalid 90 input.home_latitude
      then some invalid_latitude
      else if is_invalid 180 input.home_longitude
      then some invalid_longitude
      else if is_bad_iata (iata_of input.airport_iata)
      then some invalid_iata
      else if not fr24_loaded
      then some fr24_not_loaded
      else none

  -- The coordinates have been tested, so that the last clause is not reached.
  abbrev entry_of : UserInput → Option Float → Option Float → FlowResult
  entry_of input (some lat) (some lon) = create_entry (record {
    home_latitude = lat;
    home_longitude = lon;
    airport_iata = or_none (some (iata_of input.airport_iata));
    radius_km = the_radius input.radius_km;
  })
  entry_of input _ _ = show_form none

  -- What follows the chain of tests, with the error that it found.
  abbrev pub answer : UserInput → Bool → Option FormError → FlowResult
  answer input configured (some e) = show_form (some e)
  answer input true none = already_configured
  answer input false none = entry_of input input.home_latitude input.home_longitude

  -- `fr24_loaded` says whether Flightradar24 has entries, `configured` whether the unique id has.
  unfoldable pub async_step_user : Option UserInput → Bool → Bool → FlowResult
  unfolding form_error iata_of or_none
  async_step_user none fr24_loaded configured = show_form none
  async_step_user (some input) fr24_loaded configured =
      answer input configured (form_error input fr24_loaded)
