-- ===== src/Storage/Queries/Recent.antt =====
-- `query_recent`: the pages of the sightings, newest first.
use ha_skywatch.Prelude.{
  ℕ, suc, zero, ◌+◌, ◌-◌, ◌*◌, ◌/◌, ◌%◌, ◌≤◌, ◌<◌, min, max, ◌≡◌, refl, ◌∙◌, ap, Bool, List, [],
  ◌∷◌, arith, length, take, drop, get_elem?, text_lt, length-take, length-drop, length-map, map,
  compare_text-swap, text_le_trans,
}
use native.Mathlib.Nat.{div-mul-le_self, le-div_iff_mul-le, mod-lt, div-add-mod'}
use ha_skywatch.Prelude.Int.{ℤ, pos, pos_part}
use ha_skywatch.Prelude.Sort.{sort_by, Orders, length-sort_by}
use ha_skywatch.Python.{Platform, Zone}
use ha_skywatch.Storage.Schema.{SightingRow, Database}
use ha_skywatch.Storage.Queries.Decorate.{Decorated, decorate, decorate_row}

abbrev pub default_recent_page_size : ℕ
default_recent_page_size = 10

-- ORDER BY exit_time DESC
abbrev pub newer : SightingRow → SightingRow → Bool
newer a b = text_lt b.exit_time a.exit_time

unfoldable pub newest_first : List SightingRow → List SightingRow
newest_first = sort_by newer

pub newer-Orders : Orders newer
newer-Orders = record {
  asym = λ x y h. ground (arith, compare_text-swap x.exit_time y.exit_time);
  not_trans = λ x y z h k. ground (
    arith,
    compare_text-swap x.exit_time y.exit_time,
    compare_text-swap y.exit_time z.exit_time,
    compare_text-swap x.exit_time z.exit_time,
    text_le_trans z.exit_time y.exit_time x.exit_time,
  );
}

pub record Page : Type 0 where
  pub count : ℕ
  pub sightings : List Decorated
  pub page : ℕ
  pub total_pages : ℕ
  pub page_size : ℕ
  pub total_count : ℕ

unfoldable pub total_pages_of : ℕ → ℕ → ℕ
total_pages_of total page_size = max 1 ((total + page_size - 1) / page_size)

-- `max(1, int(page))` and then `min(page, total_pages)`
unfoldable pub clamp_page : ℤ → ℕ → ℕ
clamp_page page total_pages = min (max 1 (pos_part page)) total_pages

module _ (p : Platform) (tz : Zone) where
  unfoldable pub query_recent : ℤ → ℕ → Database → Page
  unfolding total_pages_of clamp_page newest_first
  query_recent page page_size d =
      let total = length d.sightings in
      let total_pages = total_pages_of total page_size in
      let page' = clamp_page page total_pages in
      let offset = (page' - 1) * page_size in
      let rows = decorate p tz (take page_size (drop offset (newest_first d.sightings))) in
      record {
        count = length rows;
        sightings = rows;
        page = page';
        total_pages = total_pages;
        page_size = page_size;
        total_count = total;
      }

length-decorate :
    (p : Platform) (tz : Zone) (rows : List SightingRow) → length (decorate p tz rows) ≡ length rows
unfolding decorate
length-decorate p tz rows = length-map (decorate_row p tz) rows

clamp_page_bounds :
    (page : ℤ) (total page_size : ℕ)
    → (1 ≤ clamp_page page (total_pages_of total page_size))
      × (clamp_page page (total_pages_of total page_size) ≤ total_pages_of total page_size)
unfolding clamp_page total_pages_of
clamp_page_bounds page total page_size = omega arith

add-sub_one : (n : ℕ) → n + 1 - 1 ≡ n
add-sub_one n = omega arith

page_starts_inside :
    (page total page_size : ℕ)
    → 0 < page_size
    → 0 < total
    → 1 ≤ page
    → page ≤ total_pages_of total page_size
    → (page - 1) * page_size < total
unfolding total_pages_of
page_starts_inside page total page_size h k low high =
    let q = (total + page_size - 1) / page_size in
    let whole : q * page_size ≤ total + page_size - 1 = grind arith in
    let first : 1 ≤ q = grind arith in
    let fits : (page - 1) * page_size + page_size ≤ q * page_size = grind arith in omega arith

-- An index, its page and its place.
page_of_index :
    (k total page_size : ℕ)
    → 0 < page_size
    → k < total
    → clamp_page (pos (k / page_size + 1)) (total_pages_of total page_size) ≡ k / page_size + 1
unfolding clamp_page total_pages_of
page_of_index k total page_size h lt =
    let whole : k / page_size * page_size ≤ k = div-mul-le_self k page_size in
    let inside : (k / page_size + 1) * page_size ≤ total + page_size - 1 = grind arith in
    let below : k / page_size + 1 ≤ (total + page_size - 1) / page_size =
      (le-div_iff_mul-le h).1 inside in
    omega arith

get_elem?-take :
    {A B : Type 0} (f : A → B) (n i : ℕ) (xs : List A)
    → i < n
    → get_elem? (map f (take n xs)) i ≡ get_elem? (map f xs) i
get_elem?-take f zero i xs h = absurd (omega arith)
get_elem?-take f (suc n) i [] h = refl
get_elem?-take f (suc n) zero (x ∷ xs) h = refl
get_elem?-take f (suc n) (suc i) (x ∷ xs) h = get_elem?-take f n i xs (omega arith)

get_elem?-drop :
    {A B : Type 0} (f : A → B) (n i : ℕ) (xs : List A)
    → get_elem? (map f (drop n xs)) i ≡ get_elem? (map f xs) (n + i)
get_elem?-drop f zero i xs = ap (get_elem? (map f xs)) (omega arith)
get_elem?-drop f (suc n) i [] = refl
get_elem?-drop f (suc n) i (x ∷ xs) =
    get_elem?-drop f n i xs ∙ ap (get_elem? (map f (x ∷ xs))) (step n i)
  where
    step : (n i : ℕ) → suc (n + i) ≡ suc n + i
    step n i = omega arith

module _ (p : Platform) (tz : Zone) (page : ℤ) (page_size : ℕ) (d : Database)
    (positive : 0 < page_size) where
  abbrev shown : Page
  shown = query_recent p tz page page_size d

  -- Whatever page is asked for, the page shown lies between 1 and the number of pages, it has at
  -- most `page_size` rows, and it has none only if there are no sightings.
  pub query_recent_bounds :
      (1 ≤ shown.page)
      × (shown.page ≤ shown.total_pages)
      × (shown.count ≤ page_size)
      × (0 < length d.sightings → 0 < shown.count)
  unfolding query_recent
  query_recent_bounds =
      let total = length d.sightings in
      let pages = total_pages_of total page_size in
      let page' = clamp_page page pages in
      let rest = drop ((page' - 1) * page_size) (newest_first d.sightings) in
      let measured : length (decorate p tz (take page_size rest))
          ≡ min page_size (total - (page' - 1) * page_size) =
        length-decorate p tz (take page_size rest)
        ∙ (length-take page_size rest
            ∙ ap (λ n. min page_size n)
                (length-drop ((page' - 1) * page_size) (newest_first d.sightings)
                  ∙ ap (λ n. n - (page' - 1) * page_size) (length-sort_by newer d.sightings))) in
      let low = clamp_page_bounds page total page_size in
      (
        low.0,
        low.1,
        omega (arith, measured),
        λ some_rows. omega (
          arith,
          measured,
          page_starts_inside page' total page_size positive some_rows low.0 low.1,
        ),
      )

  -- Every sighting is on a page: the one with index `k`, newest first, stands at place
  -- `k % page_size` of page `k / page_size + 1`.
  pub query_recent_complete :
      (k : ℕ)
      → k < length d.sightings
      → get_elem?
          (query_recent p tz (pos (k / page_size + 1)) page_size d).sightings
          (k % page_size)
        ≡ get_elem? (decorate p tz (newest_first d.sightings)) k
  unfolding query_recent decorate
  query_recent_complete k h =
      let f = decorate_row p tz in
      let rows = newest_first d.sightings in
      let offset = k / page_size * page_size in
      rw (page_of_index k (length d.sightings) page_size positive h, add-sub_one)
        (get_elem?-take f page_size (k % page_size) (drop offset rows) (mod-lt k positive)
          ∙ (get_elem?-drop f offset (k % page_size) rows
              ∙ ap (get_elem? (map f rows)) (div-add-mod' k page_size)))
