-- ===== src/Normalizers.antt =====
-- custom_components/skywatch/storage/normalizers.py
pub mod Laws
use ha_skywatch.Prelude.{
  Bool, true, false, Option, none, some, List, [], ◌∷◌, Text, codes, starts_with, is_empty, drop,
  ◌++◌, ℕ, ◌==◌, if◌then◌else◌, zero, suc,
}
use ha_skywatch.Prelude.Int.{ℤ, pos}
use ha_skywatch.Python.{
  Float, finite, inf, neg_inf, nan, Value, null, bool, int, float, str, container, truncate, truthy,
  Platform,
}
use ha_skywatch.Python.Result.{Result, ok, err, overflow}
use ha_skywatch.Time.{DateTime, naive, aware, Instant}

abbrev pub doubled_prefix : Text
doubled_prefix = codes "https:https://"

unfoldable pub normalize_photo_url : Value → Option Text
unfolding truthy
normalize_photo_url (str s) =
    if is_empty s then none else if starts_with s doubled_prefix then some (drop 6 s) else some s
normalize_photo_url _ = none

-- `str.replace("Z", "+00:00")`
unfoldable pub replace_z : Text → Text
replace_z [] = []
replace_z (c ∷ s) = if c == b'Z' then codes "+00:00" ++ replace_z s else c ∷ replace_z s

module _ (p : Platform) where
  open p use {float_of_text, float_of_int, from_isoformat}

  abbrev float_int : ℤ → Result (Option Float)
  float_int n = elim (float_of_int n) [ none ↦ err overflow | some f ↦ ok (some f) ]

  -- `float(value)`, where TypeError and ValueError give `none` and OverflowError is raised.
  unfoldable pub to_float : Value → Result (Option Float)
  to_float (bool b) = float_int (if b then pos 1 else pos 0)
  to_float (int n) = float_int n
  to_float (float f) = ok (some f)
  to_float (str s) = ok (float_of_text s)
  to_float _ = ok none

  -- `int(f)`: of an infinity OverflowError is raised, of nan ValueError.
  unfoldable pub int_of_float : Float → Result (Option ℤ)
  int_of_float (finite z) = ok (some (truncate z))
  int_of_float nan = ok none
  int_of_float _ = err overflow

  unfoldable pub coerce_int : Value → Result (Option ℤ)
  unfolding to_float int_of_float
  coerce_int null = ok none
  coerce_int (str []) = ok none
  coerce_int v = elim (to_float v) [
    | err e ↦ err e
    | ok none ↦ ok none
    | ok (some f) ↦ int_of_float f
  ]

  unfoldable pub coerce_float : Value → Result (Option Float)
  unfolding to_float
  coerce_float null = ok none
  coerce_float (str []) = ok none
  coerce_float v = to_float v

  -- An aware `datetime`; one without an offset is taken for UTC.
  unfoldable pub as_utc : DateTime → Instant
  as_utc (naive w) = w
  as_utc (aware t) = t

  -- `parse_iso` of normalizers.py, and `_parse_iso` of queries.py, its copy.
  unfoldable pub parse_iso : Option Text → Option Instant
  unfolding replace_z as_utc
  parse_iso none = none
  parse_iso (some []) = none
  parse_iso (some (c ∷ s)) = elim (from_isoformat (replace_z (c ∷ s))) [
    | none ↦ none
    | some dt ↦ some (as_utc dt)
  ]
