-- ===== src/Storage/Queries/Groups.antt =====
-- GROUP BY … ORDER BY n DESC LIMIT …: the groups of a list of keys with their sizes. SQLite leaves
-- the order of groups of one size open; here it is the order of the keys.
pub mod Top
pub mod Stats
use ha_skywatch.Prelude.{
  ℕ, zero, suc, ◌+◌, ◌≤◌, ◌<◌, ◌≡◌, ◌↔◌, refl, ◌∙◌, ap, Bool, true, false, ◌||◌, ◌&&◌, not, List,
  [], ◌∷◌, ◌++◌, arith, length, take, drop, filter, any, count_if, ltb, leb, map, min, All,
  if◌then◌else◌, length-take, Bool-cases, inl, inr,
}
use ha_skywatch.Prelude.Unique.{any-append}
use ha_skywatch.Prelude.Sort.{
  sort_by, IsOrdered, Orders, sort_by-IsOrdered, All-sort_by, length-sort_by, count_if-sort_by,
  insert_sorted,
}

module _ {K : Type 0} (same before : K → K → Bool) where
  -- Each key once, at its first place.
  unfoldable pub distinct : List K → List K
  distinct [] = []
  distinct (k ∷ keys) = let rest = distinct keys in k ∷ filter (λ j. not (same k j)) rest

  -- SELECT key, COUNT(*) … GROUP BY key
  unfoldable pub groups : List K → List (K × ℕ)
  unfolding distinct
  groups keys = map (λ k. (k, count_if (same k) keys)) (sort_by before (distinct keys))

  abbrev pub larger : K × ℕ → K × ℕ → Bool
  larger a b = ltb b.1 a.1

  -- ORDER BY n DESC LIMIT limit
  unfoldable pub top_groups : ℕ → List K → List (K × ℕ)
  unfolding groups
  top_groups limit keys = take limit (sort_by larger (groups keys))
