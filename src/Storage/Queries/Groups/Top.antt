-- ===== src/Storage/Queries/Groups/Top.antt =====
-- What `top_groups` gives.
use ha_skywatch.Prelude.{
  All-take, ℕ, zero, suc, ◌≤◌, ◌<◌, ◌≡◌, ◌↔◌, refl, ◌∙◌, ap, sym, Bool, true, false, not, List, [],
  ◌∷◌, arith, length, take, filter, any, count_if, ltb, map, All, length-take, Bool-cases, inl, inr,
}
use ha_skywatch.Prelude.Sort.{
  sort_by, IsOrdered, Orders, sort_by-IsOrdered, All-sort_by, count_if-sort_by,
}
use ha_skywatch.Storage.Queries.Groups.{distinct, groups, larger, top_groups}

module _ {A : Type 0} where
  any-eq-count_if : (p : A → Bool) (xs : List A) → any p xs ≡ ltb 0 (count_if p xs)
  any-eq-count_if p [] = refl
  any-eq-count_if p (x ∷ xs) = ground (arith, any-eq-count_if p xs)

  any-filter_keep :
      (p q : A → Bool) (xs : List A)
      → ((x : A) → p x ≡ true → q x ≡ true)
      → any p (filter q xs) ≡ any p xs
  any-filter_keep p q [] h = refl
  any-filter_keep p q (x ∷ xs) h = ground (arith, h x, any-filter_keep p q xs h)

  any-sort_by :
      (before : A → A → Bool) (p : A → Bool) (xs : List A) → any p (sort_by before xs) ≡ any p xs
  any-sort_by before p xs =
      any-eq-count_if p (sort_by before xs)
      ∙ (ap (ltb 0) (count_if-sort_by before p xs) ∙ sym (any-eq-count_if p xs))

  any-map :
      {B : Type 0} (f : A → B) (p : B → Bool) (xs : List A)
      → any p (map f xs) ≡ any (λ x. p (f x)) xs
  any-map f p [] = refl
  any-map f p (x ∷ xs) = ground (arith, any-map f p xs)

  IsOrdered-take :
      (before : A → A → Bool) (n : ℕ) (xs : List A)
      → IsOrdered before xs
      → IsOrdered before (take n xs)
  IsOrdered-take before zero xs h = tt
  IsOrdered-take before (suc n) [] h = tt
  IsOrdered-take before (suc n) (x ∷ xs) (h, hs) =
      (All-take _ n xs h, IsOrdered-take before n xs hs)

  -- Where an element with p is cut off, the list is as long as the limit.
  full-take :
      (p : A → Bool) (n : ℕ) (xs : List A)
      → any p xs ≡ true
      → any p (take n xs) ≡ false
      → length (take n xs) ≡ n
  full-take p zero xs h k = refl
  full-take p (suc n) [] h k = cc
  full-take p (suc n) (x ∷ xs) h k = ap suc (full-take p n xs (ground arith) (ground arith))

  count_if-take : (p : A → Bool) (n : ℕ) (xs : List A) → count_if p (take n xs) ≤ count_if p xs
  count_if-take p zero xs = omega arith
  count_if-take p (suc n) [] = omega arith
  count_if-take p (suc n) (x ∷ xs) = ground (arith, count_if-take p n xs)

  count_if-filter : (p q : A → Bool) (xs : List A) → count_if p (filter q xs) ≤ count_if p xs
  count_if-filter p q [] = omega arith
  count_if-filter p q (x ∷ xs) = ground (arith, count_if-filter p q xs)

  count_if-filter_none :
      (p q : A → Bool) (xs : List A)
      → ((x : A) → p x ≡ true → q x ≡ false)
      → count_if p (filter q xs) ≡ 0
  count_if-filter_none p q [] h = refl
  count_if-filter_none p q (x ∷ xs) h = ground (arith, h x, count_if-filter_none p q xs h)

  count_if-map :
      {B : Type 0} (f : A → B) (p : B → Bool) (xs : List A)
      → count_if p (map f xs) ≡ count_if (λ x. p (f x)) xs
  count_if-map f p [] = refl
  count_if-map f p (x ∷ xs) = ground (arith, count_if-map f p xs)

module _ {K : Type 0} (same before : K → K → Bool)
    (same_iff : (a b : K) → (same a b ≡ true) ↔ (a ≡ b)) (keys : List K) where
  abbrev by_size : K × ℕ → K × ℕ → Bool
  by_size = larger same before

  by_size-Orders : Orders by_size
  by_size-Orders = record { asym = λ x y h. ground arith; not_trans = λ x y z h k. ground arith }

  abbrev size : K → ℕ
  size k = count_if (same k) keys

  abbrev is_key : K → K × ℕ → Bool
  is_key k g = same g.0 k

  abbrev IsExact : K × ℕ → Type 0
  IsExact g = g.1 ≡ size g.0

  groups-IsExact : (ks : List K) → All IsExact (map (λ k. (k, count_if (same k) keys)) ks)
  groups-IsExact [] = tt
  groups-IsExact (k ∷ ks) = (refl, groups-IsExact ks)

  any-distinct :
      (k : K) (ks : List K) → any (λ j. same j k) (distinct same before ks) ≡ any (λ j. same j k) ks
  unfolding distinct
  any-distinct k [] = refl
  any-distinct k (j ∷ ks) = elim (Bool-cases (same j k)) [
    | inl is_j ↦ rw is_j
    | inr other ↦ rw other (
        any-filter_keep (λ i. same i k) (λ i. not (same j i)) (distinct same before ks)
          (λ i h. ground (arith, same_iff i k, same_iff j i, same_iff j k))
        ∙ any-distinct k ks)
  ]

  any-groups : (k : K) → any (is_key k) (groups same before keys) ≡ any (λ j. same j k) keys
  unfolding groups
  any-groups k =
      any-map (λ j. (j, count_if (same j) keys)) (is_key k)
        (sort_by before (distinct same before keys))
      ∙ (any-sort_by before (λ j. same j k) (distinct same before keys) ∙ any-distinct k keys)

  distinct-once : (k : K) (ks : List K) → count_if (λ j. same j k) (distinct same before ks) ≤ 1
  unfolding distinct
  distinct-once k [] = omega arith
  distinct-once k (j ∷ ks) = elim (Bool-cases (same j k)) [
    | inl is_j ↦ ground (
      arith,
      is_j,
      count_if-filter_none (λ i. same i k) (λ i. not (same j i)) (distinct same before ks)
          (λ i h. ground (arith, same_iff i k, same_iff j i, same_iff j k)),
    )
    | inr other ↦ ground (
      arith,
      other,
      count_if-filter (λ i. same i k) (λ i. not (same j i)) (distinct same before ks),
      distinct-once k ks,
    )
  ]

  groups_once : (k : K) → count_if (is_key k) (groups same before keys) ≤ 1
  unfolding groups
  groups_once k = omega (
    arith,
    count_if-map (λ j. (j, count_if (same j) keys)) (is_key k)
        (sort_by before (distinct same before keys)),
    count_if-sort_by before (λ j. same j k) (distinct same before keys),
    distinct-once k keys,
  )

  counted : (k : K) (ks : List K) → 0 < count_if (same k) ks → any (λ j. same j k) ks ≡ true
  counted k [] h = absurd (omega arith)
  counted k (j ∷ ks) h = ground (arith, counted k ks, same_iff k j, same_iff j k)

  below :
      (k : K) (bound : ℕ) (gs : List (K × ℕ))
      → All IsExact gs
      → All (λ g. g.1 ≤ bound) gs
      → any (is_key k) gs ≡ true
      → size k ≤ bound
  below k bound [] exact le h = cc
  below k bound ((j, n) ∷ gs) (e, exact) (l, le) h = elim (Bool-cases (same j k)) [
    | inl is_j ↦ rw (← (same_iff j k).0 is_j, ← e) l
    | inr other ↦ below k bound gs exact le (ground arith)
  ]

  not_larger :
      (g : K × ℕ) (gs : List (K × ℕ)) → All (λ y. by_size y g ≡ false) gs → All (λ y. y.1 ≤ g.1) gs
  not_larger g [] h = tt
  not_larger g (y ∷ gs) (h, hs) = (ground arith, not_larger g gs hs)

  best :
      (k : K) (n : ℕ) (gs : List (K × ℕ))
      → IsOrdered by_size gs
      → All IsExact gs
      → any (is_key k) gs ≡ true
      → any (is_key k) (take n gs) ≡ false
      → All (λ g. size k ≤ g.1) (take n gs)
  best k zero gs o exact h absent = tt
  best k (suc n) [] o exact h absent = tt
  best k (suc n) (g ∷ gs) (first, o) (e, exact) h absent =
      let later : any (is_key k) gs ≡ true = ground arith in
      (below k g.1 gs exact (not_larger g gs first) later, best k n gs o exact later (ground arith))

  zero_le : (m : ℕ) (gs : List (K × ℕ)) → m ≡ 0 → All (λ g. m ≤ g.1) gs
  zero_le m [] e = tt
  zero_le m (g ∷ gs) e = (omega arith, zero_le m gs e)

  -- The groups listed have their sizes, no group is listed in front of a larger one, none twice, and
  -- no more than the limit; a key that is not listed occurs no oftener than any that is, and if it
  -- occurs at all the list is as long as the limit.
  pub top_groups_lem :
      (limit : ℕ)
      → let top = top_groups same before limit keys in
        All (λ g. g.1 ≡ count_if (same g.0) keys) top
        × IsOrdered (larger same before) top
        × (length top ≤ limit)
        × ((k : K) → count_if (λ (g : K × ℕ). same g.0 k) top ≤ 1)
        × ((k : K)
            → any (λ (g : K × ℕ). same g.0 k) top ≡ false
            → All (λ g. count_if (same k) keys ≤ g.1) top)
        × ((k : K)
            → any (λ (g : K × ℕ). same g.0 k) top ≡ false
            → 0 < count_if (same k) keys
            → length top ≡ limit)
  unfolding top_groups
  top_groups_lem limit =
      let gs = groups same before keys in
      let ordered = sort_by-IsOrdered by_size by_size-Orders gs in
      let exact = All-sort_by by_size IsExact gs (unfold groups in groups-IsExact _) in
      let found : (k : K) → 0 < size k → any (is_key k) (sort_by by_size gs) ≡ true = λ k some_keys.
        any-sort_by by_size (is_key k) gs ∙ (any-groups k ∙ counted k keys some_keys) in
      (
        All-take IsExact limit _ exact,
        IsOrdered-take by_size limit _ ordered,
        omega (arith, length-take limit (sort_by by_size gs)),
        λ k. omega (
          arith,
          count_if-take (is_key k) limit (sort_by by_size gs),
          count_if-sort_by by_size (is_key k) gs,
          groups_once k,
        ),
        λ k absent. elim (Bool-cases (ltb 0 (size k))) [
          | inl some_keys ↦ best k limit _ ordered exact (found k (ground arith)) absent
          | inr no_keys ↦ zero_le (size k) _ (ground arith)
        ],
        λ k absent some_keys. full-take (is_key k) limit _ (found k some_keys) absent,
      )
