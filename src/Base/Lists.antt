-- ===== src/Base/Lists.antt =====
-- Lists measured by native numbers and selected by Boolean tests, as JavaScript's array methods do.
use Prim.Native.Nat.{ℕ, zero, suc, ◌+◌, ◌≤◌, min}
use mathlib.Core.Path.{◌≡◌, refl}
use mathlib.Core.Logic.{◌⊎◌, inl, inr}
use mathlib.Core.Bool.{Bool, true, false, ◌&&◌, ◌||◌}
use mathlib.Core.List.{List, [], ◌∷◌, ◌++◌}
use mathlib.Core.Option.{Option, none, some}
use native.Mathlib.Omega.{arith}
use sentinel_project.Base.Tests.{Bool-cases, if◌then◌else◌}

module _ {ℓ} {A : Type ℓ} where
  abbrev pub length : List A → ℕ
  length [] = 0
  length (x ∷ xs) = suc (length xs)

  abbrev pub get_elem? : List A → ℕ → Option A
  get_elem? [] i = none
  get_elem? (x ∷ xs) zero = some x
  get_elem? (x ∷ xs) (suc i) = get_elem? xs i

  abbrev pub take : ℕ → List A → List A
  take zero xs = []
  take (suc n) [] = []
  take (suc n) (x ∷ xs) = x ∷ take n xs

  abbrev pub filter : (A → Bool) → List A → List A
  filter p [] = []
  filter p (x ∷ xs) = let rest = filter p xs in if p x then x ∷ rest else rest

  abbrev pub find : (A → Bool) → List A → Option A
  find p [] = none
  find p (x ∷ xs) = let rest = find p xs in if p x then some x else rest

  abbrev pub any : (A → Bool) → List A → Bool
  any p [] = false
  any p (x ∷ xs) = p x || any p xs

  abbrev pub all : (A → Bool) → List A → Bool
  all p [] = true
  all p (x ∷ xs) = p x && all p xs

  abbrev pub is_empty : List A → Bool
  is_empty [] = true
  is_empty (x ∷ xs) = false

  pub length-append : (xs ys : List A) → length (xs ++ ys) ≡ length xs + length ys
  length-append [] ys = omega arith
  length-append (x ∷ xs) ys = omega (arith, length-append xs ys)

  pub length-take : (n : ℕ) (xs : List A) → length (take n xs) ≡ min n (length xs)
  length-take zero xs = omega arith
  length-take (suc n) [] = omega arith
  length-take (suc n) (x ∷ xs) = omega (arith, length-take n xs)

  pub length-filter-le : (p : A → Bool) (xs : List A) → length (filter p xs) ≤ length xs
  length-filter-le p [] = omega arith
  length-filter-le p (x ∷ xs) = ground (arith, length-filter-le p xs)

  pub filter-append :
      (p : A → Bool) (xs ys : List A) → filter p (xs ++ ys) ≡ filter p xs ++ filter p ys
  filter-append p [] ys = refl
  filter-append p (x ∷ xs) ys = ground (arith, filter-append p xs ys)

-- Every element has the property.
abbrev pub All {ℓ κ} : {T : Type ℓ} → (T → Type κ) → List T → Type κ
All C [] = Unit
All C (t ∷ ts) = C t × All C ts

-- Some element has the property.
abbrev pub Any {ℓ} : {A : Type ℓ} → (A → Type 0) → List A → Type 0
Any P [] = ⊥
Any P (x ∷ xs) = P x ⊎ Any P xs

module _ {ℓ κ} {A : Type ℓ} (P : A → Type κ) where
  pub All-append : (xs ys : List A) → All P xs → All P ys → All P (xs ++ ys)
  All-append [] ys hx hy = hy
  All-append (x ∷ xs) ys hx hy = (hx.0, All-append xs ys hx.1 hy)

pub All-map {ℓ κ} :
    {A : Type ℓ} {P Q : A → Type κ} → ((x : A) → P x → Q x) → (xs : List A) → All P xs → All Q xs
All-map f [] h = tt
All-map f (x ∷ xs) h = (f x h.0, All-map f xs h.1)

module _ {ℓ} {A : Type ℓ} (p : A → Bool) where
  -- What `find` does not find is not there.
  pub find-none : (xs : List A) → find p xs ≡ none → All (λ x. p x ≡ false) xs
  find-none [] h = tt
  find-none (x ∷ xs) h = elim (Bool-cases (p x)) [
    | inl e ↦ absurd (ground (arith, rw (e, if◌then◌else◌) at h))
    | inr e ↦ (e, find-none xs (rw (e, if◌then◌else◌) at h))
  ]

  -- What `find` finds passes the test.
  pub find-some : (xs : List A) (a : A) → find p xs ≡ some a → p a ≡ true
  find-some [] a h = absurd (ground arith)
  find-some (x ∷ xs) a h = elim (Bool-cases (p x)) [
    | inl e ↦ ground arith
    | inr e ↦ find-some xs a (rw (e, if◌then◌else◌) at h)
  ]

  -- An element behind a list in which nothing is found.
  pub find-last :
      (xs : List A) (a : A) → find p xs ≡ none → p a ≡ true → find p (xs ++ a ∷ []) ≡ some a
  find-last [] a h e = rw (e, if◌then◌else◌)
  find-last (x ∷ xs) a h e = elim (Bool-cases (p x)) [
    | inl f ↦ absurd (ground (arith, rw (f, if◌then◌else◌) at h))
    | inr f ↦ rw (f, if◌then◌else◌) (find-last xs a (rw (f, if◌then◌else◌) at h) e)
  ]

module _ {ℓ κ} {A : Type ℓ} (P Q : A → Type κ) where
  pub All-both : (xs : List A) → All P xs → All Q xs → All (λ x. P x × Q x) xs
  All-both [] h k = tt
  All-both (x ∷ xs) h k = ((h.0, k.0), All-both xs h.1 k.1)

module _ {A : Type 0} (p : A → Bool) where
  -- What is found is there.
  pub find-Any : (xs : List A) (a : A) → find p xs ≡ some a → Any (λ x. x ≡ a) xs
  find-Any [] a h = absurd (ground arith)
  find-Any (x ∷ xs) a h = elim (Bool-cases (p x)) [
    | inl e ↦ inl (cc (rw (e, if◌then◌else◌) at h))
    | inr e ↦ inr (find-Any xs a (rw (e, if◌then◌else◌) at h))
  ]
