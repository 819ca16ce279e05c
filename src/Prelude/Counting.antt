-- ===== src/Prelude/Counting.antt =====
-- Lists turned round, and lists of different entries counted.
use Prim.Native.Nat.{suc, ◌+◌, ◌≤◌}
use mathlib.Core.Path.{◌≡◌, refl, sym, ap, subst, ◌∙◌}
use mathlib.Core.Logic.{inl, inr}
use mathlib.Core.List.{List, [], ◌∷◌}
use native.Mathlib.Omega.{arith}
use rag_stack_monorepo.Prelude.Lists.{length, In, All, Distinct}

module _ {A : Type 0} where
  abbrev pub reverse_onto : List A → List A → List A
  reverse_onto done [] = done
  reverse_onto done (x ∷ xs) = reverse_onto (x ∷ done) xs

  -- `Array.prototype.reverse`
  abbrev pub reverse : List A → List A
  reverse xs = reverse_onto [] xs

  pub All-reverse_onto {κ} :
      (P : A → Type κ) (done xs : List A) → All P done → All P xs → All P (reverse_onto done xs)
  All-reverse_onto P done [] h g = h
  All-reverse_onto P done (x ∷ xs) h g = All-reverse_onto P (x ∷ done) xs (g.0, h) g.1

  pub length-reverse_onto :
      (done xs : List A) → length (reverse_onto done xs) ≡ length done + length xs
  length-reverse_onto done [] = omega arith
  length-reverse_onto done (x ∷ xs) = omega (arith, length-reverse_onto (x ∷ done) xs)

  pub All-In : (P : A → Type 0) (xs : List A) → ((a : A) → In a xs → P a) → All P xs
  All-In P [] f = tt
  All-In P (x ∷ xs) f = (f x (inl refl), All-In P xs (λ a m. f a (inr m)))

  -- The list without the entry at one place.
  abbrev pub without : (xs : List A) (a : A) → In a xs → List A
  without [] a m = absurd m
  without (x ∷ xs) a (inl e) = xs
  without (x ∷ xs) a (inr m) = x ∷ without xs a m

  length-without : (xs : List A) (a : A) (m : In a xs) → length xs ≡ suc (length (without xs a m))
  length-without [] a m = absurd m
  length-without (x ∷ xs) a (inl e) = refl
  length-without (x ∷ xs) a (inr m) = ap suc (length-without xs a m)

  In-without : (xs : List A) (a b : A) (m : In a xs) → ¬ (a ≡ b) → In b xs → In b (without xs a m)
  In-without [] a b m n q = absurd m
  In-without (x ∷ xs) a b (inl e) n (inl q) = absurd (n (e ∙ sym q))
  In-without (x ∷ xs) a b (inl e) n (inr q) = q
  In-without (x ∷ xs) a b (inr m) n (inl q) = inl q
  In-without (x ∷ xs) a b (inr m) n (inr q) = inr (In-without xs a b m n q)

  -- Different entries of a list are no more than the list is long.
  pub Distinct-length-le :
      (xs ys : List A) → Distinct xs → ((a : A) → In a xs → In a ys) → length xs ≤ length ys
  Distinct-length-le [] ys d f = omega arith
  Distinct-length-le (x ∷ xs) ys d f =
      let m = f x (inl refl) in
      omega (
        arith,
        length-without ys x m,
        Distinct-length-le xs (without ys x m) d.1
            λ b q. In-without ys x b m (λ e. d.0 (subst (λ c. In c xs) (sym e) q)) (f b (inr q)),
      )

  -- As many different entries as a list is long are all of its entries.
  pub Distinct-all :
      (xs ys : List A) (a : A)
      → Distinct xs
      → ((b : A) → In b xs → In b ys)
      → length ys ≤ length xs
      → In a ys
      → ¬ (¬ (In a xs))
  Distinct-all xs ys a d f n m away = absurd (
      omega (
        arith,
        n,
        length-without ys a m,
        Distinct-length-le xs (without ys a m) d
            λ b q. In-without ys a b m (λ e. away (subst (λ c. In c xs) (sym e) q)) (f b q),
      ))
