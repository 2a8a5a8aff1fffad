-- ===== src/Prelude/Sort.antt =====
-- `ORDER BY`, as a stable insertion sort: rows that compare equal keep their order.
use Prim.Native.Nat.{suc}
use mathlib.Core.Path.{◌≡◌, refl}
use mathlib.Core.Bool.{Bool, true, false}
use mathlib.Core.List.{List, [], ◌∷◌}
use native.Mathlib.Omega.{arith}
use mathlib.Core.Logic.{inl, inr}
use ha_skywatch.Prelude.Tests.{Bool-cases, if◌then◌else◌}
use ha_skywatch.Prelude.Lists.{length, count_if, All}

module _ {ℓ} {A : Type ℓ} (before : A → A → Bool) where
  unfoldable pub insert_sorted : A → List A → List A
  insert_sorted x [] = x ∷ []
  insert_sorted x (y ∷ ys) =
      let rest = insert_sorted x ys in if before y x then y ∷ rest else x ∷ y ∷ ys

  -- `before y x` says that `y` has to stand in front of `x`.
  unfoldable pub sort_by : List A → List A
  unfolding insert_sorted
  sort_by [] = []
  sort_by (x ∷ xs) = insert_sorted x (sort_by xs)

  -- No element has to stand in front of an earlier one.
  abbrev pub IsOrdered : List A → Type ℓ
  IsOrdered [] = Unit
  IsOrdered (x ∷ xs) = All (λ y. before y x ≡ false) xs × IsOrdered xs

module _ {ℓ} {A : Type ℓ} (before : A → A → Bool) where
  count_if-insert_sorted :
      (p : A → Bool) (x : A) (xs : List A)
      → count_if p (insert_sorted before x xs) ≡ count_if p (x ∷ xs)
  unfolding insert_sorted
  count_if-insert_sorted p x [] = refl
  count_if-insert_sorted p x (y ∷ ys) = ground (arith, count_if-insert_sorted p x ys)

  -- Sorting keeps, for every test, the number of elements that pass it.
  pub count_if-sort_by :
      (p : A → Bool) (xs : List A) → count_if p (sort_by before xs) ≡ count_if p xs
  unfolding sort_by
  count_if-sort_by p [] = refl
  count_if-sort_by p (x ∷ xs) =
      ground (arith, count_if-sort_by p xs, count_if-insert_sorted p x (sort_by before xs))

  length-insert_sorted :
      (x : A) (xs : List A) → length (insert_sorted before x xs) ≡ suc (length xs)
  unfolding insert_sorted
  length-insert_sorted x [] = refl
  length-insert_sorted x (y ∷ ys) = ground (arith, length-insert_sorted x ys)

  pub length-sort_by : (xs : List A) → length (sort_by before xs) ≡ length xs
  unfolding sort_by
  length-sort_by [] = refl
  length-sort_by (x ∷ xs) =
      omega (arith, length-sort_by xs, length-insert_sorted x (sort_by before xs))

  All-insert_sorted {κ} :
      (P : A → Type κ) (x : A) (xs : List A) → P x → All P xs → All P (insert_sorted before x xs)
  unfolding insert_sorted
  All-insert_sorted P x [] h hs = (h, tt)
  All-insert_sorted P x (y ∷ ys) h (k, ks) =
      elim (before y x) as (λ b. All P (if b then y ∷ insert_sorted before x ys else x ∷ y ∷ ys)) [
        | true ↦ (k, All-insert_sorted P x ys h ks)
        | false ↦ (h, (k, ks))
      ]

  pub All-sort_by {κ} : (P : A → Type κ) (xs : List A) → All P xs → All P (sort_by before xs)
  unfolding sort_by
  All-sort_by P [] h = tt
  All-sort_by P (x ∷ xs) (h, hs) = All-insert_sorted P x (sort_by before xs) h (All-sort_by P xs hs)

-- A test that orders: never both ways, and its failure is transitive.
pub record Orders {ℓ} {A : Type ℓ} (before : A → A → Bool) : Type ℓ where
  pub asym : (x y : A) → before x y ≡ true → before y x ≡ false
  pub not_trans : (x y z : A) → before y x ≡ false → before z y ≡ false → before z x ≡ false

module _ {ℓ} {A : Type ℓ} (before : A → A → Bool) (o : Orders before) where
  All-later :
      (x y : A) (ys : List A)
      → before y x ≡ false
      → All (λ z. before z y ≡ false) ys
      → All (λ z. before z x ≡ false) ys
  All-later x y [] h a = tt
  All-later x y (z ∷ ys) h (k, a) = (o.not_trans x y z h k, All-later x y ys h a)

  insert_sorted-IsOrdered :
      (x : A) (xs : List A) → IsOrdered before xs → IsOrdered before (insert_sorted before x xs)
  unfolding insert_sorted
  insert_sorted-IsOrdered x [] h = (tt, tt)
  insert_sorted-IsOrdered x (y ∷ ys) (h, hs) = elim (Bool-cases (before y x)) [
    | inl first ↦ rw first (
      All-insert_sorted before (λ z. before z y ≡ false) x ys (o.asym y x first) h,
      insert_sorted-IsOrdered x ys hs,
    )
    | inr second ↦ rw second ((second, All-later x y ys second h), (h, hs))
  ]

  -- The result of sorting is in order.
  pub sort_by-IsOrdered : (xs : List A) → IsOrdered before (sort_by before xs)
  unfolding sort_by
  sort_by-IsOrdered [] = tt
  sort_by-IsOrdered (x ∷ xs) = insert_sorted-IsOrdered x (sort_by before xs) (sort_by-IsOrdered xs)
