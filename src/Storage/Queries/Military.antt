-- ===== src/Storage/Queries/Military.antt =====
-- storage/queries.py: `query_military`, and how it differs from `is_military` of classify.py.
use ha_skywatch.Prelude.{
  ℕ, ◌≡◌, ◌≢◌, refl, Bool, false, Option, none, some, List, [], ◌∷◌, arith, Text, take, filter, any,
  upper, is_empty, count_if, text_eq, map, All, text_eq_iff, upper_idem, count_if_none,
  compare_text, Bool-cases, inl, inr,
}
use mathlib.Core.Path.{subst}
use ha_skywatch.Python.{Platform, Zone, or_empty}
use ha_skywatch.Storage.Schema.{SightingRow, Database}
use ha_skywatch.Storage.Queries.Decorate.{Decorated, decorate}
use ha_skywatch.Storage.Queries.Recent.{newest_first}
use ha_skywatch.Classify.{has_code, is_military}

abbrev pub default_military_limit : ℕ
default_military_limit = 50

-- UPPER(IFNULL(aircraft_code,'')) IN (…), against the codes as they are configured
unfoldable pub has_military_code : List Text → SightingRow → Bool
has_military_code known r = any (text_eq (upper (or_empty r.aircraft_code))) known

pub record Counted : Type 0 where
  pub count : ℕ
  pub sightings : List Decorated

module _ (p : Platform) (tz : Zone) where
  unfoldable pub query_military : List Text → ℕ → Database → Counted
  unfolding newest_first
  query_military [] limit d = record { count = 0; sightings = [] }
  query_military (c ∷ known) limit d = record {
    count = count_if (has_military_code (c ∷ known)) d.sightings;
    sightings =
        decorate p tz
          (take limit (newest_first (filter (has_military_code (c ∷ known)) d.sightings)));
  }

abbrev IsUpper : List Text → Type 0
IsUpper = All (λ c. (upper c ≡ c) × (is_empty c ≡ false))

any-eq :
    (code : Text) (known : List Text)
    → IsUpper known
    → any (text_eq code) known ≡ any (λ c. text_eq code c) (map upper known)
any-eq code [] h = refl
any-eq code (c ∷ known) ((e, _), h) = rw e (ground (arith, any-eq code known h))

none_empty : (known : List Text) → IsUpper known → any (text_eq []) known ≡ false
unfolding is_empty compare_text
none_empty [] h = refl
none_empty ([] ∷ known) ((_, some_text), h) = cc
none_empty ((c ∷ s) ∷ known) ((_, some_text), h) = none_empty known h

-- Where the configured codes are upper case and not empty, the query selects the sightings whose
-- code `is_military` accepts.
pub has_military_code-eq-is_military :
    (known : List Text) (r : SightingRow)
    → All (λ c. (upper c ≡ c) × (is_empty c ≡ false)) known
    → has_military_code known r ≡ is_military r.aircraft_code known
unfolding has_military_code is_military
has_military_code-eq-is_military known r h = by_code r.aircraft_code
  where
    by_code :
        (code : Option Text) → any (text_eq (upper (or_empty code))) known ≡ has_code code known
    by_code none = unfold has_code upper in none_empty known h
    by_code (some []) = unfold has_code upper is_empty in none_empty known h
    by_code (some (c ∷ s)) = unfold has_code is_empty in any-eq (upper (c ∷ s)) known h

not_upper :
    (known : List Text) (code : Text)
    → All (λ c. upper c ≢ c) known
    → any (text_eq (upper code)) known ≡ false
not_upper [] code h = refl
not_upper (c ∷ known) code (lower, h) = elim (Bool-cases (text_eq (upper code) c)) [
  | inl same ↦
      let e : upper code ≡ c = (text_eq_iff (upper code) c).0 same in
      absurd (lower (subst (λ s. upper s ≡ s) e (upper_idem code)))
  | inr other ↦ ground (arith, not_upper known code h)
]

-- A configured code with a lower case letter selects no sighting: if all have one, the count is 0.
pub query_military_lower_case :
    (p : Platform) (tz : Zone) (known : List Text) (limit : ℕ) (d : Database)
    → All (λ c. upper c ≢ c) known
    → (query_military p tz known limit d).count ≡ 0
unfolding query_military has_military_code
query_military_lower_case p tz [] limit d h = refl
query_military_lower_case p tz (c ∷ known) limit d h =
    count_if_none _ d.sightings (λ r. not_upper (c ∷ known) (or_empty r.aircraft_code) h)
