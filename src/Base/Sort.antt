-- ===== src/Base/Sort.antt =====
-- `Array.prototype.sort` with a comparison: a stable insertion sort, by the Boolean test that the
-- first element does not come after the second.
use Prim.Native.Nat.{suc}
use mathlib.Core.Path.{◌≡◌, refl, ap, ◌∙◌}
use mathlib.Core.Logic.{inl, inr}
use mathlib.Core.Bool.{Bool, true, false}
use mathlib.Core.List.{List, [], ◌∷◌, Perm}
use mathlib.Core.List.Perm
use native.Mathlib.Omega.{arith}
use sentinel_project.Base.Tests.{Bool-cases, if◌then◌else◌}
use sentinel_project.Base.Lists.{All, All-map, filter, length}

module _ {ℓ} {A : Type ℓ} (le : A → A → Bool) where
  insert : A → List A → List A
  insert x [] = x ∷ []
  insert x (y ∷ ys) = let rest = insert x ys in if le x y then x ∷ y ∷ ys else y ∷ rest

  unfoldable pub sort : List A → List A
  unfolding insert
  sort [] = []
  sort (x ∷ xs) = insert x (sort xs)

  insert-perm : (x : A) (ys : List A) → Perm (insert x ys) (x ∷ ys)
  unfolding insert
  insert-perm x [] = Perm.refl (x ∷ [])
  insert-perm x (y ∷ ys) = elim (Bool-cases (le x y)) [
    | inl e ↦ rw e (Perm.refl (x ∷ y ∷ ys))
    | inr e ↦ rw e (Perm.trans (Perm.cons y (insert-perm x ys)) (Perm.swap x y ys))
  ]

  pub sort-perm : (xs : List A) → Perm (sort xs) xs
  unfolding sort
  sort-perm [] = Perm.refl []
  sort-perm (x ∷ xs) = Perm.trans (insert-perm x (sort xs)) (Perm.cons x (sort-perm xs))

  length-insert : (x : A) (ys : List A) → length (insert x ys) ≡ suc (length ys)
  unfolding insert
  length-insert x [] = refl
  length-insert x (y ∷ ys) = ground (arith, length-insert x ys)

  pub length-sort : (xs : List A) → length (sort xs) ≡ length xs
  unfolding sort
  length-sort [] = refl
  length-sort (x ∷ xs) = length-insert x (sort xs) ∙ ap suc (length-sort xs)

  length-filter-insert :
      (p : A → Bool) (x : A) (ys : List A)
      → length (filter p (insert x ys)) ≡ length (filter p (x ∷ ys))
  unfolding insert
  length-filter-insert p x [] = refl
  length-filter-insert p x (y ∷ ys) = ground (arith, length-filter-insert p x ys)

  -- Sorting keeps how many elements pass a test.
  pub length-filter-sort :
      (p : A → Bool) (xs : List A) → length (filter p (sort xs)) ≡ length (filter p xs)
  unfolding sort
  length-filter-sort p [] = refl
  length-filter-sort p (x ∷ xs) =
      ground (arith, length-filter-insert p x (sort xs), length-filter-sort p xs)

  -- No element comes after a later one.
  abbrev pub Sorted : List A → Type ℓ
  Sorted [] = Unit
  Sorted (x ∷ xs) = All (λ y. le x y ≡ true) xs × Sorted xs

  insert-All {κ} : (P : A → Type κ) (x : A) (ys : List A) → P x → All P ys → All P (insert x ys)
  unfolding insert
  insert-All P x [] h k = (h, tt)
  insert-All P x (y ∷ ys) h k = elim (Bool-cases (le x y)) [
    | inl e ↦ rw e (h, k)
    | inr e ↦ rw e (k.0, insert-All P x ys h k.1)
  ]

  pub sort-All {κ} : (P : A → Type κ) (xs : List A) → All P xs → All P (sort xs)
  unfolding sort
  sort-All P [] h = tt
  sort-All P (x ∷ xs) h = insert-All P x (sort xs) h.0 (sort-All P xs h.1)

  module _ (total : (x y : A) → le x y ≡ false → le y x ≡ true)
      (trans : (x y z : A) → le x y ≡ true → le y z ≡ true → le x z ≡ true) where
    insert-Sorted : (x : A) (ys : List A) → Sorted ys → Sorted (insert x ys)
    unfolding insert
    insert-Sorted x [] h = (tt, tt)
    insert-Sorted x (y ∷ ys) h = elim (Bool-cases (le x y)) [
      | inl e ↦ rw e ((e, All-map (λ z k. trans x y z e k) ys h.0), h)
      | inr e ↦
          rw e (insert-All (λ z. le y z ≡ true) x ys (total x y e) h.0, insert-Sorted x ys h.1)
    ]

    pub sort-Sorted : (xs : List A) → Sorted (sort xs)
    unfolding sort
    sort-Sorted [] = tt
    sort-Sorted (x ∷ xs) = insert-Sorted x (sort xs) (sort-Sorted xs)
