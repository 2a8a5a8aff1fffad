-- ===== src/Prelude/Unique.antt =====
-- Lists without two elements that a test takes for the same, and lists of growing numbers.
use ha_skywatch.Prelude.{
  ℕ, ◌+◌, ◌≤◌, ◌<◌, ◌≡◌, refl, Bool, true, false, ◌||◌, List, [], ◌∷◌, ◌++◌, arith, filter, any,
}

module _ {ℓ} {A : Type ℓ} where
  -- No element is the same as a later one.
  abbrev pub IsUnique : (A → A → Bool) → List A → Type 0
  IsUnique same [] = Unit
  IsUnique same (x ∷ xs) = (any (same x) xs ≡ false) × IsUnique same xs

  -- The numbers grow from above `lo`, and none passes `hi`.
  abbrev pub IsGrowing : (A → ℕ) → ℕ → List A → ℕ → Type 0
  IsGrowing number lo [] hi = lo ≤ hi
  IsGrowing number lo (x ∷ xs) hi = (lo < number x) × IsGrowing number (number x) xs hi

module _ {ℓ} {A : Type ℓ} where
  pub any-append : (p : A → Bool) (xs ys : List A) → any p (xs ++ ys) ≡ (any p xs || any p ys)
  any-append p [] ys = refl
  any-append p (x ∷ xs) ys = ground (arith, any-append p xs ys)

  pub any-filter : (p q : A → Bool) (xs : List A) → any p xs ≡ false → any p (filter q xs) ≡ false
  any-filter p q [] h = refl
  any-filter p q (x ∷ xs) h = ground (arith, any-filter p q xs)

  pub IsUnique-filter :
      (same : A → A → Bool) (q : A → Bool) (xs : List A)
      → IsUnique same xs
      → IsUnique same (filter q xs)
  IsUnique-filter same q [] h = tt
  IsUnique-filter same q (x ∷ xs) (new, rest) =
      ground (arith, IsUnique-filter same q xs rest, any-filter (same x) q xs new)

  pub IsUnique-append :
      (same : A → A → Bool) (xs : List A) (x : A)
      → any (λ y. same y x) xs ≡ false
      → IsUnique same xs
      → IsUnique same (xs ++ (x ∷ []))
  IsUnique-append same [] x h u = (refl, tt)
  IsUnique-append same (y ∷ xs) x h (new, rest) =
      ground (arith, any-append (same y) xs (x ∷ []), IsUnique-append same xs x (ground arith) rest)

  pub IsGrowing-append :
      (number : A → ℕ) (lo : ℕ) (xs : List A) (hi : ℕ) (x : A)
      → number x ≡ hi + 1
      → IsGrowing number lo xs hi
      → IsGrowing number lo (xs ++ (x ∷ [])) (hi + 1)
  IsGrowing-append number lo [] hi x e h = omega arith
  IsGrowing-append number lo (y ∷ xs) hi x e (h, rest) =
      (h, IsGrowing-append number (number y) xs hi x e rest)

  -- What a filter that drops all `p` leaves has no `p`.
  pub any-filter_not :
      (p q : A → Bool) (xs : List A)
      → ((x : A) → p x ≡ true → q x ≡ false)
      → any p (filter q xs) ≡ false
  any-filter_not p q [] h = refl
  any-filter_not p q (x ∷ xs) h = ground (arith, h x, any-filter_not p q xs h)
