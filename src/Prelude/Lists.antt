-- ===== src/Prelude/Lists.antt =====
-- Lists over the native numbers, membership by recursion, and predicates on all entries.
use Prim.Native.Nat.{ℕ, zero, suc, ◌+◌, ◌≤◌}
use mathlib.Core.Path.{◌≡◌, sym, subst}
use mathlib.Core.Logic.{◌⊎◌, inl, inr, ◌↔◌}
use mathlib.Core.Bool.{Bool, true, false}
use mathlib.Core.List.{List, [], ◌∷◌, ◌++◌}
use mathlib.Core.Option.{Option, none, some}
use native.Mathlib.Omega.{arith}
use rag_stack_monorepo.Prelude.Tests.{if◌then◌else◌}

module _ {ℓ} {A : Type ℓ} where
  abbrev pub length : List A → ℕ
  length [] = 0
  length (x ∷ xs) = suc (length xs)

  abbrev pub head : List A → Option A
  head [] = none
  head (x ∷ xs) = some x

  -- `Array.prototype.filter`
  abbrev pub filter : (A → Bool) → List A → List A
  filter p [] = []
  filter p (x ∷ xs) = let rest = filter p xs in if p x then x ∷ rest else rest

  -- `Array.prototype.some`
  abbrev pub any : (A → Bool) → List A → Bool
  any p [] = false
  any p (x ∷ xs) = if p x then true else any p xs

  -- `slice(0, n)`
  abbrev pub take : ℕ → List A → List A
  take zero xs = []
  take (suc n) [] = []
  take (suc n) (x ∷ xs) = x ∷ take n xs

  pub length-take-le : (n : ℕ) (xs : List A) → length (take n xs) ≤ n
  length-take-le zero xs = omega arith
  length-take-le (suc n) [] = omega arith
  length-take-le (suc n) (x ∷ xs) = omega (arith, length-take-le n xs)

  pub length-append : (xs ys : List A) → length (xs ++ ys) ≡ length xs + length ys
  length-append [] ys = omega arith
  length-append (x ∷ xs) ys = omega (arith, length-append xs ys)

module _ {A : Type 0} where
  -- Membership with the place kept, by recursion on the list.
  abbrev pub In : A → List A → Type 0
  In a [] = ⊥
  In a (x ∷ xs) = (a ≡ x) ⊎ In a xs

  abbrev pub All {κ} : (A → Type κ) → List A → Type κ
  All P [] = Unit
  All P (x ∷ xs) = P x × All P xs

  pub In-filter : (p : A → Bool) (a : A) (xs : List A) → In a xs → p a ≡ true → In a (filter p xs)
  In-filter p a [] h e = h
  In-filter p a (x ∷ xs) h e = ground (arith, In-filter p a xs)

  pub In-of_filter :
      (p : A → Bool) (a : A) (xs : List A) → In a (filter p xs) → In a xs × (p a ≡ true)
  In-of_filter p a [] h = absurd h
  In-of_filter p a (x ∷ xs) h = ground (arith, In-of_filter p a xs)

  pub In-All : (P : A → Type 0) (xs : List A) (a : A) → All P xs → In a xs → P a
  In-All P (x ∷ xs) a h (inl e) = subst P (sym e) h.0
  In-All P (x ∷ xs) a h (inr m) = In-All P xs a h.1 m
  In-All P [] a h m = absurd m

  -- No entry stands twice.
  abbrev pub Distinct : List A → Type 0
  Distinct [] = Unit
  Distinct (x ∷ xs) = (¬ (In x xs)) × Distinct xs

  pub In-append_iff : (a : A) (xs ys : List A) → In a (xs ++ ys) ↔ (In a xs ⊎ In a ys)
  In-append_iff a [] ys = (λ h. inr h, elim [ inl h ↦ absurd h | inr h ↦ h ])
  In-append_iff a (x ∷ xs) ys = (
    elim [
      | inl e ↦ inl (inl e)
      | inr h ↦ elim ((In-append_iff a xs ys).0 h) [ inl m ↦ inl (inr m) | inr m ↦ inr m ]
    ],
    elim [
      | inl h ↦ elim h [ inl e ↦ inl e | inr m ↦ inr ((In-append_iff a xs ys).1 (inl m)) ]
      | inr m ↦ inr ((In-append_iff a xs ys).1 (inr m))
    ],
  )
