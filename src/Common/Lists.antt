-- ===== src/Common/Lists.antt =====
-- Lists measured by native numbers, and a predicate on all elements by recursion.
use Prim.Native.Nat.{ℕ, zero, suc, ◌+◌, ◌≤◌}
use mathlib.Core.Path.{◌≡◌, refl, ap, ◌∙◌, subst}
use mathlib.Core.Bool.{Bool}
use mathlib.Core.List.{List, [], ◌∷◌, ◌++◌, Perm, Permᴰ, foldr}
use mathlib.Core.Logic.{∥∥₁_elim}
use mathlib.Core.Option.{Option, none, some}
use native.Mathlib.Omega.{arith}
use high_performance_e_comme.Common.Tests.{if◌then◌else◌}

module _ {ℓ} {A : Type ℓ} where
  abbrev pub length : List A → ℕ
  length [] = 0
  length (_ ∷ xs) = suc (length xs)

  abbrev pub get_elem? : List A → ℕ → Option A
  get_elem? [] i = none
  get_elem? (x ∷ xs) zero = some x
  get_elem? (x ∷ xs) (suc i) = get_elem? xs i

  -- The elements that pass a test, in order: a comprehension with an `if`, or `$.grep`.
  abbrev pub select : (A → Bool) → List A → List A
  select p [] = []
  select p (x ∷ xs) = let rest = select p xs in if p x then x ∷ rest else rest

  pub length-append : (xs ys : List A) → length (xs ++ ys) ≡ length xs + length ys
  length-append [] ys = omega arith
  length-append (x ∷ xs) ys = omega (arith, length-append xs ys)

module _ {ℓ κ} {A : Type ℓ} where
  abbrev pub All : (A → Type κ) → List A → Type κ
  All P [] = Unit
  All P (x ∷ xs) = P x × All P xs

  pub All-append : (P : A → Type κ) (xs ys : List A) → All P xs → All P ys → All P (xs ++ ys)
  All-append P [] ys h k = k
  All-append P (x ∷ xs) ys (p, h) k = (p, All-append P xs ys h k)

  pub All-head_append : (P : A → Type κ) (xs ys : List A) → All P (xs ++ ys) → All P xs × All P ys
  All-head_append P [] ys h = (tt, h)
  All-head_append P (x ∷ xs) ys (p, h) = let (hx, hy) = All-head_append P xs ys h in ((p, hx), hy)

  All-permᴰ : (P : A → Type κ) {xs ys : List A} → Permᴰ xs ys → All P xs → All P ys
  All-permᴰ P Permᴰ.nil h = h
  All-permᴰ P (Permᴰ.cons e p) (h, hs) = (subst P e h, All-permᴰ P p hs)
  All-permᴰ P (Permᴰ.swap e d) (h, (k, hs)) = (subst P d k, (subst P e h, hs))
  All-permᴰ P (Permᴰ.trans p q) h = All-permᴰ P q (All-permᴰ P p h)

  pub All-prop : (P : A → Type κ) → ((x : A) → IsProp (P x)) → (xs : List A) → IsProp (All P xs)
  All-prop P h [] = hlevel
  All-prop P h (x ∷ xs) = hlevel (h, All-prop P h xs)

  -- A predicate on all elements does not depend on their order.
  pub All-perm :
      (P : A → Type κ)
      → ((x : A) → IsProp (P x))
      → {xs ys : List A} → Perm xs ys
      → All P xs
      → All P ys
  All-perm P prop {xs} {ys} p h = ∥∥₁_elim p (All-prop P prop ys) (λ d. All-permᴰ P d h)

-- Lists in the ascending order of a key.
module _ {A : Type 0} (key : A → ℕ) where
  abbrev pub From : ℕ → List A → Type 0
  From p xs = All (λ x. p ≤ key x) xs

  abbrev pub IsSorted : List A → Type 0
  IsSorted [] = Unit
  IsSorted (x ∷ xs) = From (key x) xs × IsSorted xs

  pub From-le : (p q : ℕ) (xs : List A) → p ≤ q → From q xs → From p xs
  From-le p q [] h k = tt
  From-le p q (x ∷ xs) h (k, ks) = (omega arith, From-le p q xs h ks)

-- A fold whose steps commute takes a step first or last.
pub foldr_comm {ℓ κ} :
    {A : Type ℓ} {B : Type κ} (f : A → B → B)
    → ((x y : A) (b : B) → f x (f y b) ≡ f y (f x b))
    → (x : A) (b : B) (xs : List A) → foldr f (f x b) xs ≡ f x (foldr f b xs)
foldr_comm f comm x b [] = refl
foldr_comm f comm x b (y ∷ xs) = ap (f y) (foldr_comm f comm x b xs) ∙ comm y x (foldr f b xs)
