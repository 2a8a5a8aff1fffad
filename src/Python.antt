-- ===== src/Python.antt =====
-- Python values as the integration meets them at its boundaries, and what it takes from outside:
-- the parsers of `float` and `datetime.fromisoformat`, and time zones.
pub mod Result
use ha_skywatch.Prelude.{
  ℕ, zero, suc, ◌*◌, ◌/◌, ◌^◌, Bool, true, false, not, Option, none, some, List, [], ◌∷◌, Text,
  is_empty, ltb, if◌then◌else◌, ◌≡◌,
}
use ha_skywatch.Prelude.Int.{ℤ, pos, negsuc, pos_part, neg_part, ltb_ℤ}
use ha_skywatch.Time.{Instant, DateTime}

-- A double. Every finite one is a whole multiple of 2⁻¹⁰⁷⁴, and is written as that multiple.
pub data Float : Type 0 where
  finite : ℤ → Float
  inf neg_inf nan : Float

-- `a < b`; no order holds with `nan`.
unfoldable pub ltb_float : Float → Float → Bool
ltb_float (finite a) (finite b) = ltb_ℤ a b
ltb_float (finite a) inf = true
ltb_float neg_inf (finite b) = true
ltb_float neg_inf inf = true
ltb_float _ _ = false

-- `- k`
abbrev pub negative : ℕ → ℤ
negative zero = pos 0
negative (suc k) = negsuc k

-- The part of a finite double before the point, towards zero.
unfoldable pub truncate : ℤ → ℤ
truncate (pos n) = pos (n / 2 ^ 1074)
truncate (negsuc n) = negative (suc n / 2 ^ 1074)

-- A value of an event payload or of a state attribute. Of a container only its truth is read.
pub data Value : Type 0 where
  null : Value
  bool : Bool → Value
  int : ℤ → Value
  float : Float → Value
  str : Text → Value
  container : Bool → Value

-- `bool(value)`
unfoldable pub truthy : Value → Bool
truthy null = false
truthy (bool b) = b
truthy (int (pos zero)) = false
truthy (int _) = true
truthy (float (finite (pos zero))) = false
truthy (float _) = true
truthy (str s) = not (is_empty s)
truthy (container b) = b

-- `text or None`
unfoldable pub or_none : Option Text → Option Text
or_none none = none
or_none (some s) = if is_empty s then none else some s

-- `text or ""`, and SQL `IFNULL(text, '')`
abbrev pub or_empty : Option Text → Text
or_empty none = []
or_empty (some s) = s

-- `a or b` on texts
unfoldable pub or_else : Option Text → Option Text → Option Text
unfolding or_none
or_else a b = elim (or_none a) [ none ↦ b | some s ↦ some s ]

abbrev pub is_none {ℓ} : {A : Type ℓ} → Option A → Bool
is_none none = true
is_none (some a) = false

-- What the code calls and does not implement.
pub record Platform : Type 0 where
  -- `float(text)`, `none` where it raises ValueError
  pub float_of_text : Text → Option Float
  -- `float(int)`, `none` where it raises OverflowError
  pub float_of_int : ℤ → Option Float
  -- `datetime.fromisoformat`, `none` where it raises ValueError
  pub from_isoformat : Text → Option DateTime
  -- `str.upper`, which on ASCII text is `upper`
  pub str_upper : Text → Text
  -- `astimezone` of a naive `datetime`, which takes it for the system's local time
  pub local_to_utc : ℕ → Instant

-- A `ZoneInfo`: the wall clock at an instant, in microseconds since 0001-01-01T00:00:00, and the
-- instant at which the wall clock shows a time.
pub record Zone : Type 0 where
  pub to_wall : Instant → ℕ
  pub from_wall : ℕ → Instant
