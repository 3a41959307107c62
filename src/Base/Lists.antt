-- ===== src/Base/Lists.antt =====
-- Lists: lengths over the native numbers, searches by a Boolean test, and predicates by recursion.
use Prim.Native.Nat.{ℕ, suc, ◌+◌}
use mathlib.Core.Path.{◌≡◌, refl}
use mathlib.Core.Bool.{Bool, true, false, ◌||◌}
use mathlib.Core.Option.{Option, none, some}
use mathlib.Core.List.{List, [], ◌∷◌, ◌++◌, map}
use mathlib.Core.Logic.{◌⊎◌, inl, inr}
use native.Mathlib.Omega.{arith}
use artifact_registry_servic.Base.Tests.{if◌then◌else◌, Bool-cases}

module _ {ℓ} {A : Type ℓ} where
  abbrev pub length : List A → ℕ
  length [] = 0
  length (x ∷ xs) = suc (length xs)

  pub length-append : (xs ys : List A) → length (xs ++ ys) ≡ length xs + length ys
  length-append [] ys = omega arith
  length-append (x ∷ xs) ys = omega (arith, length-append xs ys)

  -- The first element that passes the test.
  abbrev pub find : (A → Bool) → List A → Option A
  find p [] = none
  find p (x ∷ xs) = if p x then some x else find p xs

  abbrev pub any : (A → Bool) → List A → Bool
  any p [] = false
  any p (x ∷ xs) = p x || any p xs

  -- The elements that pass the test, in their order.
  abbrev pub select : (A → Bool) → List A → List A
  select p [] = []
  select p (x ∷ xs) = let rest = select p xs in if p x then x ∷ rest else rest

  pub select-append :
      (p : A → Bool) (xs ys : List A) → select p (xs ++ ys) ≡ select p xs ++ select p ys
  select-append p [] ys = refl
  select-append p (x ∷ xs) ys = ground (arith, select-append p xs ys)

module _ {ℓ κ} {A : Type ℓ} (P : A → Type κ) where
  abbrev pub All : List A → Type κ
  All [] = Unit
  All (x ∷ xs) = P x × All xs

  pub All-append : (xs ys : List A) → All xs → All ys → All (xs ++ ys)
  All-append [] ys _ k = k
  All-append (x ∷ xs) ys (p, h) k = (p, All-append xs ys h k)

module _ {ℓ κ μ} {A : Type ℓ} (P : A → Type κ) (Q : A → Type μ) where
  pub All-weaken : ((x : A) → P x → Q x) → (xs : List A) → All P xs → All Q xs
  All-weaken f [] h = tt
  All-weaken f (x ∷ xs) (p, h) = (f x p, All-weaken f xs h)

-- A test that no element passes, element by element.
pub All-of_not_any {ℓ} :
    {A : Type ℓ} (p : A → Bool) (xs : List A) → any p xs ≡ false → All (λ x. p x ≡ false) xs
All-of_not_any p [] h = tt
All-of_not_any p (x ∷ xs) h = (ground arith, All-of_not_any p xs (ground arith))

module _ {ℓ κ} {A : Type ℓ} (R : A → A → Type κ) where
  -- Every element stands in the relation to all that come after it.
  abbrev pub Pairwise : List A → Type κ
  Pairwise [] = Unit
  Pairwise (x ∷ xs) = All (R x) xs × Pairwise xs

  pub Pairwise-append_one :
      (xs : List A) (y : A) → Pairwise xs → All (λ x. R x y) xs → Pairwise (xs ++ y ∷ [])
  Pairwise-append_one [] y h k = (tt, tt)
  Pairwise-append_one (x ∷ xs) y (a, h) (r, k) =
      (All-append (R x) xs (y ∷ []) a (r, tt), Pairwise-append_one xs y h k)

  -- Functions that the relation does not see may be applied to the elements.
  pub Pairwise-of_related :
      (f : A → A)
      → ((x y : A) → R x y → R (f x) (f y))
      → (xs : List A) → Pairwise xs
      → Pairwise (map f xs)
  Pairwise-of_related f keep [] h = tt
  Pairwise-of_related f keep (x ∷ xs) (a, h) = (row xs a, Pairwise-of_related f keep xs h)
    where
      row : (ys : List A) → All (R x) ys → All (R (f x)) (map f ys)
      row [] b = tt
      row (y ∷ ys) (r, b) = (keep x y r, row ys b)

module _ {A : Type 0} where
  -- Some element is this one.
  abbrev pub Among : A → List A → Type 0
  Among x [] = ⊥
  Among x (y ∷ ys) = (x ≡ y) ⊎ Among x ys

  pub Among-append : (x : A) (xs ys : List A) → Among x xs → Among x (xs ++ ys)
  Among-append x [] ys h = elim h [ ]
  Among-append x (y ∷ xs) ys (inl e) = inl e
  Among-append x (y ∷ xs) ys (inr h) = inr (Among-append x xs ys h)

  pub Among-append_one : (x : A) (xs : List A) → Among x (xs ++ x ∷ [])
  Among-append_one x [] = inl refl
  Among-append_one x (y ∷ xs) = inr (Among-append_one x xs)

module _ {ℓ κ} {A : Type ℓ} (P : A → Type κ) where
  -- What a search finds passes the test, and has what all elements have.
  pub find-All :
      (f : A → Bool) (xs : List A) (a : A) → find f xs ≡ some a → All P xs → (f a ≡ true) × P a
  find-All f [] a h k = cc
  find-All f (x ∷ xs) a h (p, k) = elim (Bool-cases (f x)) [
    | inl here ↦ let same : x ≡ a = cc in rw⁻¹ same (here, p)
    | inr elsewhere ↦ find-All f xs a (rw elsewhere at h) k
  ]

  -- A relation that follows for elements that have a property.
  pub Pairwise-weaken :
      (R S : A → A → Type κ)
      → ((x y : A) → P x → P y → R x y → S x y)
      → (xs : List A) → All P xs
      → Pairwise R xs
      → Pairwise S xs
  Pairwise-weaken R S f [] h k = tt
  Pairwise-weaken R S f (x ∷ xs) (p, h) (r, k) = (later xs h r, Pairwise-weaken R S f xs h k)
    where
      later : (ys : List A) → All P ys → All (R x) ys → All (S x) ys
      later [] h r = tt
      later (y ∷ ys) (q, h) (r, k) = (f x y p q r, later ys h k)
