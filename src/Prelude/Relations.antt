-- ===== src/Prelude/Relations.antt =====
-- Relations between the entries of a list, properties of their places, and finding an entry.
use Prim.Native.Nat.{ℕ, zero, suc, ◌+◌}
use mathlib.Core.Path.{◌≡◌, subst}
use mathlib.Core.Logic.{inl, inr}
use mathlib.Core.Bool.{Bool, true, false}
use mathlib.Core.List.{List, [], ◌∷◌, ◌++◌}
use mathlib.Core.Option.{Option, none, some}
use native.Mathlib.Omega.{arith}
use rag_stack_monorepo.Prelude.Tests.{if◌then◌else◌, Bool-cases}
use rag_stack_monorepo.Prelude.Lists.{length, take, In, All}

module _ {A : Type 0} where
  -- `Array.prototype.find`
  abbrev pub find : (A → Bool) → List A → Option A
  find p [] = none
  find p (x ∷ xs) = if p x then some x else find p xs

  -- Every entry stands in the relation to every entry after it.
  abbrev pub Pairwise {κ} : (A → A → Type κ) → List A → Type κ
  Pairwise R [] = Unit
  Pairwise R (x ∷ xs) = All (R x) xs × Pairwise R xs

  -- The entry at each place satisfies `P` of its place, counted from the given number.
  abbrev pub Ranked {κ} : (ℕ → A → Type κ) → ℕ → List A → Type κ
  Ranked P n [] = Unit
  Ranked P n (x ∷ xs) = P n x × Ranked P (suc n) xs

  pub All-append {κ} : (P : A → Type κ) (xs ys : List A) → All P xs → All P ys → All P (xs ++ ys)
  All-append P [] ys h g = g
  All-append P (x ∷ xs) ys h g = (h.0, All-append P xs ys h.1 g)

  pub All-map {κ} : {P Q : A → Type κ} → ((a : A) → P a → Q a) → (xs : List A) → All P xs → All Q xs
  All-map f [] h = tt
  All-map f (x ∷ xs) h = (f x h.0, All-map f xs h.1)

  pub Pairwise-snoc {κ} :
      (R : A → A → Type κ) (xs : List A) (a : A)
      → Pairwise R xs
      → All (λ x. R x a) xs
      → Pairwise R (xs ++ (a ∷ []))
  Pairwise-snoc R [] a h g = (tt, tt)
  Pairwise-snoc R (x ∷ xs) a h g =
      (All-append (R x) xs (a ∷ []) h.0 (g.0, tt), Pairwise-snoc R xs a h.1 g.1)

  pub Ranked-snoc {κ} :
      (P : ℕ → A → Type κ) (n : ℕ) (xs : List A) (a : A)
      → Ranked P n xs
      → P (n + length xs) a
      → Ranked P n (xs ++ (a ∷ []))
  Ranked-snoc P n [] a h g = (subst (λ k. P k a) (omega arith) g, tt)
  Ranked-snoc P n (x ∷ xs) a h g =
      (h.0, Ranked-snoc P (suc n) xs a h.1 (subst (λ k. P k a) (omega arith) g))

  pub All-take {κ} : (P : A → Type κ) (n : ℕ) (xs : List A) → All P xs → All P (take n xs)
  All-take P zero xs h = tt
  All-take P (suc n) [] h = tt
  All-take P (suc n) (x ∷ xs) h = (h.0, All-take P n xs h.1)

  pub Pairwise-take {κ} :
      (R : A → A → Type κ) (n : ℕ) (xs : List A) → Pairwise R xs → Pairwise R (take n xs)
  Pairwise-take R zero xs h = tt
  Pairwise-take R (suc n) [] h = tt
  Pairwise-take R (suc n) (x ∷ xs) h = (All-take (R x) n xs h.0, Pairwise-take R n xs h.1)

  pub Ranked-take {κ} :
      (P : ℕ → A → Type κ) (k n : ℕ) (xs : List A) → Ranked P k xs → Ranked P k (take n xs)
  Ranked-take P k zero xs h = tt
  Ranked-take P k (suc n) [] h = tt
  Ranked-take P k (suc n) (x ∷ xs) h = (h.0, Ranked-take P (suc k) n xs h.1)

  pub find-eq-none : (p : A → Bool) (xs : List A) → find p xs ≡ none → All (λ x. p x ≡ false) xs
  find-eq-none p [] h = tt
  find-eq-none p (x ∷ xs) h = elim (Bool-cases (p x)) [
    | inl t ↦ absurd (ground arith)
    | inr f ↦ (f, find-eq-none p xs (ground arith))
  ]

  pub find-eq-some :
      (p : A → Bool) (xs : List A) (a : A) → find p xs ≡ some a → In a xs × (p a ≡ true)
  find-eq-some p [] a h = absurd (ground arith)
  find-eq-some p (x ∷ xs) a h = elim (Bool-cases (p x)) [
    | inl t ↦ ground arith
    | inr f ↦ let rest = find-eq-some p xs a (ground arith) in (inr rest.0, rest.1)
  ]
