-- ===== src/Prelude/Strings.antt =====
-- Text as its code points: comparison, the methods of `str` and the SQL operators that the
-- program uses. Case is changed on ASCII letters; other code points are left as they are.
use Prim.Native.Char.{code}
use Prim.Native.Nat.{ℕ, ◌-◌, compare, Ordering}
use Prim.Native.String.{String}
use mathlib.Core.Path.{◌≡◌, refl}
use mathlib.Core.Logic.{◌↔◌, ◌≢◌}
use mathlib.Core.Bool.{Bool, true, false, ◌&&◌, ◌||◌}
use mathlib.Core.List.{List, [], ◌∷◌, ◌++◌, map, reverse}
use native.Mathlib.Omega.{arith}
use ha_skywatch.Prelude.Tests.{leb, ◌==◌, if◌then◌else◌}
use ha_skywatch.Prelude.Lists.{length}

abbrev pub Text : Type 0
Text = List ℕ

-- The code points of a literal.
abbrev pub codes : String → Text
codes String.[] = []
codes (String.◌∷◌ c s) = code c ∷ codes s

abbrev pub then_cmp : Ordering → Ordering → Ordering
then_cmp Ordering.lt b = Ordering.lt
then_cmp Ordering.eq b = b
then_cmp Ordering.gt b = Ordering.gt

abbrev pub swap_cmp : Ordering → Ordering
swap_cmp Ordering.lt = Ordering.gt
swap_cmp Ordering.eq = Ordering.eq
swap_cmp Ordering.gt = Ordering.lt

-- The order of SQLite's TEXT values and of Python's `str`: code point by code point.
unfoldable pub compare_text : Text → Text → Ordering
compare_text [] [] = Ordering.eq
compare_text [] (b ∷ t) = Ordering.lt
compare_text (a ∷ s) [] = Ordering.gt
compare_text (a ∷ s) (b ∷ t) = then_cmp (compare a b) (compare_text s t)

abbrev pub text_lt : Text → Text → Bool
text_lt s t = elim (compare_text s t) [ Ordering.lt ↦ true | _ ↦ false ]

abbrev pub text_le : Text → Text → Bool
text_le s t = elim (compare_text s t) [ Ordering.gt ↦ false | _ ↦ true ]

abbrev pub text_eq : Text → Text → Bool
text_eq s t = elim (compare_text s t) [ Ordering.eq ↦ true | _ ↦ false ]

unfoldable pub is_empty : Text → Bool
is_empty [] = true
is_empty (c ∷ s) = false

pub compare_text_refl : (s : Text) → compare_text s s ≡ Ordering.eq
unfolding compare_text
compare_text_refl [] = refl
compare_text_refl (c ∷ s) = ground (arith, compare_text_refl s)

pub compare_text-swap : (s t : Text) → compare_text t s ≡ swap_cmp (compare_text s t)
unfolding compare_text
compare_text-swap [] [] = refl
compare_text-swap [] (b ∷ t) = refl
compare_text-swap (a ∷ s) [] = refl
compare_text-swap (a ∷ s) (b ∷ t) = ground (arith, compare_text-swap s t)

eq_of_compare : (s t : Text) → compare_text s t ≡ Ordering.eq → s ≡ t
unfolding compare_text
eq_of_compare [] [] h = refl
eq_of_compare [] (b ∷ t) h = cc
eq_of_compare (a ∷ s) [] h = cc
eq_of_compare (a ∷ s) (b ∷ t) h = ground (arith, eq_of_compare s t)

-- For prefixes of one length the order is decided by the prefixes, then by the rests.
pub compare_text-append :
    (s t u v : Text)
    → length s ≡ length t
    → compare_text (s ++ u) (t ++ v) ≡ then_cmp (compare_text s t) (compare_text u v)
unfolding compare_text
compare_text-append [] [] u v h = refl
compare_text-append [] (b ∷ t) u v h = absurd (omega arith)
compare_text-append (a ∷ s) [] u v h = absurd (omega arith)
compare_text-append (a ∷ s) (b ∷ t) u v h = ground (arith, compare_text-append s t u v)

pub text_eq_iff : (s t : Text) → (text_eq s t ≡ true) ↔ (s ≡ t)
text_eq_iff s t =
    (λ h. eq_of_compare s t (ground arith), λ e. ground (arith, e, compare_text_refl t))

pub text_eq_refl : (s : Text) → text_eq s s ≡ true
text_eq_refl s = ground (arith, compare_text_refl s)

pub text_eq-false : (s t : Text) → s ≢ t → text_eq s t ≡ false
text_eq-false s t h = ground (arith, text_eq_iff s t)

pub text_lt_irrefl : (s : Text) → text_lt s s ≡ false
text_lt_irrefl s = ground (arith, compare_text_refl s)

pub text_le-total : (s t : Text) → text_le s t ≡ false → text_le t s ≡ true
text_le-total s t h = ground (arith, compare_text-swap s t)

pub text_le_trans : (s t u : Text) → text_le s t ≡ true → text_le t u ≡ true → text_le s u ≡ true
unfolding compare_text
text_le_trans [] [] u h k = k
text_le_trans [] (b ∷ t) [] h k = refl
text_le_trans [] (b ∷ t) (c ∷ u) h k = refl
text_le_trans (a ∷ s) [] u h k = cc
text_le_trans (a ∷ s) (b ∷ t) [] h k = cc
text_le_trans (a ∷ s) (b ∷ t) (c ∷ u) h k = ground (arith, text_le_trans s t u)

unfoldable pub upper_char : ℕ → ℕ
upper_char c = if leb b'a' c && leb c b'z' then c - 32 else c

-- SQL `UPPER`, which changes ASCII letters only, and `str.upper` of ASCII text
unfoldable pub upper : Text → Text
upper = map upper_char

-- What `str.strip` removes.
unfoldable pub is_space : ℕ → Bool
is_space c =
    (leb 9 c && leb c 13)
    || (leb 28 c && leb c 32)
    || (c == 133)
    || (c == 160)
    || (c == 5760)
    || (leb 8192 c && leb c 8202)
    || (c == 8232)
    || (c == 8233)
    || (c == 8239)
    || (c == 8287)
    || (c == 12288)

unfoldable pub lstrip : Text → Text
lstrip [] = []
lstrip (c ∷ s) = let rest = lstrip s in if is_space c then rest else c ∷ s

-- `str.strip`
unfoldable pub strip : Text → Text
unfolding lstrip is_space
strip s = reverse (lstrip (reverse (lstrip s)))

-- `s.startswith(prefix)`
unfoldable pub starts_with : Text → Text → Bool
starts_with s [] = true
starts_with [] (p ∷ ps) = false
starts_with (c ∷ s) (p ∷ ps) = (c == p) && starts_with s ps

-- Some suffix of the text, the text itself and the empty one included, passes the test.
unfoldable pub any_suffix : (Text → Bool) → Text → Bool
any_suffix f [] = f []
any_suffix f (c ∷ s) = f (c ∷ s) || any_suffix f s

-- One character of a LIKE pattern that is no `%`: `_` takes any, a letter takes either case.
unfoldable pub like_one : ℕ → (Text → Bool) → Text → Bool
unfolding upper_char
like_one p f [] = false
like_one p f (c ∷ s) = ((p == b'_') || (upper_char p == upper_char c)) && f s

-- SQL `text LIKE pattern`, the pattern first.
unfoldable pub like : Text → Text → Bool
unfolding any_suffix like_one
like [] s = is_empty s
like (p ∷ ps) s = if p == b'%' then any_suffix (like ps) s else like_one p (like ps) s

pub upper_char_idem : (c : ℕ) → upper_char (upper_char c) ≡ upper_char c
unfolding upper_char
upper_char_idem c = ground arith

pub upper_idem : (s : Text) → upper (upper s) ≡ upper s
unfolding upper
upper_idem [] = refl
upper_idem (c ∷ s) = ground (arith, upper_char_idem c, upper_idem s)

pub any_suffix-true :
    (f : Text → Bool) (s : Text) → ((s : Text) → f s ≡ true) → any_suffix f s ≡ true
unfolding any_suffix
any_suffix-true f [] h = h []
any_suffix-true f (c ∷ s) h = ground (arith, h (c ∷ s))
