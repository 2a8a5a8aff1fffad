-- ===== src/Normalizers/Laws.antt =====
-- What the normalizers do to photo URLs, numbers and timestamps.
use ha_skywatch.Prelude.{
  ℕ, zero, suc, ◌+◌, ◌*◌, ◌/◌, ◌^◌, ◌≤◌, ◌<◌, ◌≡◌, refl, true, false, none, some, [], ◌∷◌, ◌++◌,
  Text, codes, arith, starts_with, is_empty, ◌⊎◌,
}
use ha_skywatch.Prelude.Int.{ℤ, pos, negsuc, pos_part, neg_part}
use ha_skywatch.Python.{Float, inf, neg_inf, Value, int, float, str, negative, truncate, Platform}
use ha_skywatch.Python.Result.{err, overflow}
use ha_skywatch.Normalizers.{
  doubled_prefix, normalize_photo_url, to_float, int_of_float, coerce_int,
}

starts_with-append :
    (s prefix : Text) → starts_with s prefix ≡ true → (rest : Text) × (s ≡ prefix ++ rest)
unfolding starts_with
starts_with-append s [] h = (s, refl)
starts_with-append [] (p ∷ prefix) h = absurd (ground arith)
starts_with-append (c ∷ s) (p ∷ prefix) h =
    let (rest, e) = starts_with-append s prefix (ground arith) in (rest, ground arith)

append-starts_with : (prefix rest : Text) → starts_with (prefix ++ rest) prefix ≡ true
unfolding starts_with
append-starts_with [] rest = unfold starts_with in any_start rest
  where
    any_start : (s : Text) → starts_with s [] ≡ true
    any_start [] = refl
    any_start (c ∷ s) = refl
append-starts_with (p ∷ prefix) rest = ground (arith, append-starts_with prefix rest)

-- Of a text that is not empty, a doubled protocol loses its first half, and any other text is
-- kept as it is.
pub normalize_photo_url_lem :
    (rest s : Text)
    → (normalize_photo_url (str (codes "https:https://" ++ rest)) ≡ some (codes "https://" ++ rest))
      × (is_empty s ≡ false
          → starts_with s doubled_prefix ≡ false
          → normalize_photo_url (str s) ≡ some s)
unfolding normalize_photo_url
normalize_photo_url_lem rest s =
    (rw (append-starts_with doubled_prefix rest) (unfold is_empty in refl), λ h k. rw (h, k))

negative_bounds :
    (q m : ℕ)
    → q * 2 ^ 1074 ≤ m
    → m < (q + 1) * 2 ^ 1074
    → (pos_part (negative q) * 2 ^ 1074 ≤ 0)
      × (0 < (pos_part (negative q) + 1) * 2 ^ 1074)
      × (neg_part (negative q) * 2 ^ 1074 ≤ m)
      × (m < (neg_part (negative q) + 1) * 2 ^ 1074)
negative_bounds zero m h k = (omega arith, omega arith, omega arith, omega arith)
negative_bounds (suc q) m h k = (omega arith, omega arith, omega arith, omega arith)

-- `int(f)` of a finite double lies within one of it, towards zero. A double is a multiple of
-- 2⁻¹⁰⁷⁴, so the bounds are stated in these units.
pub truncate_bounds :
    (z : ℤ)
    → (pos_part (truncate z) * 2 ^ 1074 ≤ pos_part z)
      × (pos_part z < (pos_part (truncate z) + 1) * 2 ^ 1074)
      × (neg_part (truncate z) * 2 ^ 1074 ≤ neg_part z)
      × (neg_part z < (neg_part (truncate z) + 1) * 2 ^ 1074)
unfolding truncate
truncate_bounds (pos n) = (omega arith, omega arith, omega arith, omega arith)
truncate_bounds (negsuc n) = negative_bounds (suc n / 2 ^ 1074) (suc n) (omega arith) (omega arith)

-- The values of which `int(float(value))` raises OverflowError: an int too large for a double,
-- and an infinity, as a float or as the text of one.
pub data IsTooLarge (p : Platform) : Value → Type 0 where
  large_int : (n : ℤ) → p.float_of_int n ≡ none → IsTooLarge p (int n)
  infinite : (f : Float) → f ≡ inf ⊎ f ≡ neg_inf → IsTooLarge p (float f)
  infinite_text :
      (c : ℕ) (s : Text) (f : Float)
      → p.float_of_text (c ∷ s) ≡ some f
      → f ≡ inf ⊎ f ≡ neg_inf
      → IsTooLarge p (str (c ∷ s))

-- Of a value that is too large `coerce_int` does not return none: OverflowError leaves it.
pub coerce_int-err : (p : Platform) (v : Value) → IsTooLarge p v → coerce_int p v ≡ err overflow
unfolding coerce_int to_float int_of_float
coerce_int-err p _ (large_int n e) = ground (arith, e)
coerce_int-err p _ (infinite f e) = ground (arith, e)
coerce_int-err p _ (infinite_text c s f e k) = ground (arith, e, k)
