-- ===== src/Storage/Queries/Search.antt =====
-- `query_search`: LIKE over nine columns.
use ha_skywatch.Prelude.{
  ℕ, ◌≡◌, refl, ◌∙◌, ap, Bool, true, false, ◌&&◌, Option, List, [], ◌∷◌, ◌++◌, arith, Text, length,
  take, filter, any, count_if, min, length-map, length-take, length-filter, upper, strip, like,
  is_empty, any_suffix, like_one, ◌==◌, upper_char, upper_char_idem, any_suffix-true,
}
use ha_skywatch.Prelude.Sort.{length-sort_by}
use ha_skywatch.Python.{Platform, Zone, or_empty}
use ha_skywatch.Storage.Schema.{SightingRow, Database}
use ha_skywatch.Storage.Queries.Decorate.{Decorated, decorate}
use ha_skywatch.Storage.Queries.Recent.{newest_first}

abbrev pub default_search_limit : ℕ
default_search_limit = 25

pub record SearchResult : Type 0 where
  pub count : ℕ
  pub sightings : List Decorated
  pub term : Text

-- The columns that the WHERE clause reads.
abbrev pub searched : SightingRow → List (Option Text)
searched r =
    r.callsign ∷ r.flight_number ∷ r.airline ∷ r.airline_iata ∷ r.registration ∷ r.origin_iata
    ∷ r.destination_iata ∷ r.aircraft_code ∷ r.aircraft_model ∷ []

unfoldable pub search_needle : Platform → Text → Text
search_needle p term = b'%' ∷ (p.str_upper term ++ (b'%' ∷ []))

unfoldable pub search_where : Text → SightingRow → Bool
search_where needle r = any (λ column. like needle (upper (or_empty column))) (searched r)

module _ (p : Platform) (tz : Zone) where
  -- The body after the strip, with the stripped term.
  unfoldable pub search_stripped : Text → ℕ → Database → SearchResult
  unfolding search_needle search_where newest_first
  search_stripped [] limit d = record { count = 0; sightings = []; term = [] }
  search_stripped (c ∷ s) limit d =
      let rows =
        decorate p tz (
          take limit
            (newest_first (filter (search_where (search_needle p (c ∷ s))) d.sightings))) in
      record { count = length rows; sightings = rows; term = c ∷ s }

  unfoldable pub query_search : Text → ℕ → Database → SearchResult
  unfolding search_stripped
  query_search term limit d = search_stripped (strip term) limit d

-- No character of the text is a wildcard of LIKE.
abbrev pub IsPlain : Text → Type 0
IsPlain [] = Unit
IsPlain (c ∷ s) = ((c == b'%') ≡ false) × ((c == b'_') ≡ false) × IsPlain s

-- The text has the other one as a prefix, letters of either case being equal.
abbrev prefix_ci : Text → Text → Bool
prefix_ci [] s = true
prefix_ci (c ∷ needle) [] = false
prefix_ci (c ∷ needle) (x ∷ s) = (upper_char c == upper_char x) && prefix_ci needle s

any_suffix_empty : (s : Text) → any_suffix (like []) s ≡ true
unfolding any_suffix like is_empty
any_suffix_empty [] = refl
any_suffix_empty (c ∷ s) = any_suffix_empty s

-- `needle%` matches what starts with the needle.
like-prefix :
    (needle s : Text) → IsPlain needle → like (needle ++ (b'%' ∷ [])) s ≡ prefix_ci needle s
unfolding like
like-prefix [] s h = any_suffix_empty s
like-prefix (c ∷ needle) [] (a, b, h) = unfold like_one in ground arith
like-prefix (c ∷ needle) (x ∷ s) (a, b, h) =
    unfold like_one in ground (arith, like-prefix needle s h)

any_suffix_congr :
    (f g : Text → Bool) (s : Text) → ((s : Text) → f s ≡ g s) → any_suffix f s ≡ any_suffix g s
unfolding any_suffix
any_suffix_congr f g [] h = h []
any_suffix_congr f g (c ∷ s) h = ground (arith, h (c ∷ s), any_suffix_congr f g s h)

-- `%needle%` matches what the needle stands in.
like-contains :
    (needle s : Text)
    → IsPlain needle
    → like (b'%' ∷ (needle ++ (b'%' ∷ []))) s ≡ any_suffix (prefix_ci needle) s
unfolding like
like-contains needle s h =
    any_suffix_congr (like (needle ++ (b'%' ∷ []))) (prefix_ci needle) s
      (λ t. like-prefix needle t h)

upper-IsPlain : (s : Text) → IsPlain s → IsPlain (upper s)
unfolding upper upper_char
upper-IsPlain [] h = tt
upper-IsPlain (c ∷ s) (a, b, h) = (ground arith, ground arith, upper-IsPlain s h)

prefix_ci-upper : (needle s : Text) → prefix_ci (upper needle) (upper s) ≡ prefix_ci needle s
unfolding upper
prefix_ci-upper [] s = refl
prefix_ci-upper (c ∷ needle) [] = refl
prefix_ci-upper (c ∷ needle) (x ∷ s) =
    ground (arith, prefix_ci-upper needle s, upper_char_idem c, upper_char_idem x)

any_suffix-upper :
    (needle s : Text)
    → any_suffix (prefix_ci (upper needle)) (upper s) ≡ any_suffix (prefix_ci needle) s
unfolding any_suffix upper
any_suffix-upper needle [] = prefix_ci-upper needle []
any_suffix-upper needle (c ∷ s) =
    ground (arith, prefix_ci-upper needle (c ∷ s), any_suffix-upper needle s)

-- The needle stands somewhere in the text, letters of either case being equal.
abbrev pub stands_in : Text → Text → Bool
stands_in needle = any_suffix (prefix_ci needle)

any_congr :
    {A : Type 0} (f g : A → Bool) (xs : List A) → ((x : A) → f x ≡ g x) → any f xs ≡ any g xs
any_congr f g [] h = refl
any_congr f g (x ∷ xs) h = ground (arith, h x, any_congr f g xs h)

-- LIKE with such a needle finds what has the term in one of the nine columns.
search_where_plain :
    (p : Platform) (term : Text) (r : SightingRow)
    → IsPlain term
    → p.str_upper term ≡ upper term
    → search_where (search_needle p term) r
      ≡ any
          (λ column. stands_in term (or_empty column))
          (r.callsign ∷ r.flight_number ∷ r.airline ∷ r.airline_iata ∷ r.registration
            ∷ r.origin_iata ∷ r.destination_iata ∷ r.aircraft_code ∷ r.aircraft_model ∷ [])
unfolding search_where search_needle
search_where_plain p term r h same = any_congr _ _ (searched r) λ column.
    ap (λ s. like (b'%' ∷ (s ++ (b'%' ∷ []))) (upper (or_empty column))) same
    ∙ like-contains (upper term) (upper (or_empty column)) (upper-IsPlain term h)
    ∙ any_suffix-upper term (or_empty column)

three_percents : (s : Text) → like (b'%' ∷ b'%' ∷ b'%' ∷ []) s ≡ true
unfolding like
three_percents s = any_suffix-true _ s λ t. any_suffix-true _ t λ u. any_suffix_empty u

-- A term is not escaped: the search for a percent sign finds every sighting.
pub search_percent :
    (p : Platform) (r : SightingRow)
    → p.str_upper (b'%' ∷ []) ≡ b'%' ∷ []
    → search_where (search_needle p (b'%' ∷ [])) r ≡ true
unfolding search_where search_needle
search_percent p r same = rw (same, three_percents (upper (or_empty r.callsign)))

-- The text stands in one of the nine columns of the sighting, letters of either case being equal.
abbrev pub has_text : Text → SightingRow → Bool
has_text text r =
    any (λ column. stands_in text (or_empty column))
      (r.callsign ∷ r.flight_number ∷ r.airline ∷ r.airline_iata ∷ r.registration ∷ r.origin_iata
        ∷ r.destination_iata ∷ r.aircraft_code ∷ r.aircraft_model ∷ [])

filter_congr :
    {A : Type 0} (f g : A → Bool) (xs : List A) → ((x : A) → f x ≡ g x) → filter f xs ≡ filter g xs
filter_congr f g [] h = refl
filter_congr f g (x ∷ xs) h = rw (h x, filter_congr f g xs h) refl

module _ (p : Platform) (tz : Zone) (limit : ℕ) (d : Database) where
  -- The rows that a search for the text shows, their number and the text.
  abbrev pub IsFound : Text → SearchResult → Type 0
  IsFound text o =
      (o.term ≡ text)
      × (o.count ≡ min limit (count_if (has_text text) d.sightings))
      × (o.sightings
          ≡ decorate p tz (take limit (newest_first (filter (has_text text) d.sightings))))

  search_stripped-IsFound :
      (text : Text)
      → is_empty text ≡ false
      → IsPlain text
      → p.str_upper text ≡ upper text
      → IsFound text (search_stripped p tz text limit d)
  unfolding search_stripped newest_first decorate is_empty
  search_stripped-IsFound [] some_text plain same = absurd (ground (arith, some_text))
  search_stripped-IsFound (c ∷ s) some_text plain same =
      let found =
        filter_congr (search_where (search_needle p (c ∷ s))) (has_text (c ∷ s)) d.sightings
          (λ r. search_where_plain p (c ∷ s) r plain same) in
      let rows = newest_first (filter (search_where (search_needle p (c ∷ s))) d.sightings) in
      (
        refl,
        length-map _ (take limit rows)
            ∙ length-take limit rows
            ∙ ap (min limit) (
                length-sort_by _ _
                ∙ ap length found
                ∙ length-filter (has_text (c ∷ s)) d.sightings),
        ap (λ xs. decorate p tz (take limit (newest_first xs))) found,
      )

  -- A search for a term that, stripped, is not empty and has no `%` and `_`, and for which `str.upper`
  -- gives what SQL `UPPER` gives, as it does on ASCII text, counts the sightings that have the stripped
  -- term in one of the nine columns, up to the limit, and shows them, the newest first.
  pub query_search-IsFound :
      (term : Text)
      → is_empty (strip term) ≡ false
      → IsPlain (strip term)
      → p.str_upper (strip term) ≡ upper (strip term)
      → IsFound (strip term) (query_search p tz term limit d)
  unfolding query_search
  query_search-IsFound term = search_stripped-IsFound (strip term)
