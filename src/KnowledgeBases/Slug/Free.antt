-- ===== src/KnowledgeBases/Slug/Free.antt =====
-- The slug that `generateUniqueSlug` of
-- services/api/src/knowledge-bases/knowledge-bases.service.ts ends with.
use rag_stack_monorepo.Prelude.{
  ℕ, zero, suc, ◌≤◌, String, ◌≡◌, refl, sym, ap, ◌∙◌, ◌≢◌, ◌⊎◌, inl, inr, Bool, true, false, some,
  List, [], ◌∷◌, arith, ◌==◌, eq_iff, Bool-cases, string_eq, pair_eq, length, any, In, Distinct,
  Distinct-length-le,
}
use rag_stack_monorepo.Prisma.{Prisma}
use rag_stack_monorepo.Schema.{Db}
use rag_stack_monorepo.KnowledgeBases.Slug.{
  SlugTexts, numbered, next_free, slugs, slug_taken, generate_unique_slug,
}

module _ (t : SlugTexts) (taken : String → Bool) (base_slug : String) where
  -- The candidates that the loop tries, from one on.
  tried : ℕ → ℕ → String → List String
  tried zero suffix candidate = []
  tried (suc fuel) suffix candidate =
      candidate ∷ tried fuel (suc suffix) (numbered t base_slug suffix)

  length-tried :
      (fuel suffix : ℕ) (candidate : String) → length (tried fuel suffix candidate) ≡ fuel
  unfolding tried
  length-tried zero suffix candidate = refl
  length-tried (suc fuel) suffix candidate = ap suc (length-tried fuel (suc suffix) _)

  -- What is tried later is a numbered slug with a later number.
  In-tried :
      (fuel suffix : ℕ) (s : String)
      → In s (tried fuel (suc suffix) (numbered t base_slug suffix))
      → (n : ℕ) × ((suffix ≤ n) × (s ≡ numbered t base_slug n))
  unfolding tried
  In-tried zero suffix s m = absurd m
  In-tried (suc fuel) suffix s (inl e) = (suffix, (omega arith, e))
  In-tried (suc fuel) suffix s (inr m) =
      let (n, (later, e)) = In-tried fuel (suc suffix) s m in (n, (omega (arith, later), e))

  -- The loop ends with a candidate that is not taken, or has found all that it tried to be taken.
  next_free-cases :
      (fuel suffix : ℕ) (candidate : String)
      → ((s : String) × ((next_free t taken base_slug fuel suffix candidate ≡ some s)
            × (taken s ≡ false)))
        ⊎ ((s : String) → In s (tried fuel suffix candidate) → taken s ≡ true)
  unfolding next_free tried
  next_free-cases zero suffix candidate = inr (λ s m. absurd m)
  next_free-cases (suc fuel) suffix candidate = elim (Bool-cases (taken candidate)) [
    | inl e ↦ elim (next_free-cases fuel (suc suffix) (numbered t base_slug suffix)) [
      | inl (s, (f, g)) ↦ inl (s, (rw (next_free, e) f, g))
      | inr all ↦ inr (λ s. elim [ inl q ↦ ap taken q ∙ e | inr m ↦ all s m ])
    ]
    | inr n ↦ inl (candidate, (rw (next_free, n) refl, n))
  ]

  module _ (injective : (n m : ℕ) → numbered t base_slug n ≡ numbered t base_slug m → n ≡ m)
      (longer : (n : ℕ) → numbered t base_slug n ≢ base_slug) where
    numbered-Distinct :
        (fuel suffix : ℕ) → Distinct (tried fuel (suc suffix) (numbered t base_slug suffix))
    unfolding tried
    numbered-Distinct zero suffix = tt
    numbered-Distinct (suc fuel) suffix = (
      λ m.
          let (n, (later, e)) = In-tried fuel (suc suffix) (numbered t base_slug suffix) m in
          omega (arith, later, injective suffix n e),
      numbered-Distinct fuel (suc suffix),
    )

    tried-Distinct : (fuel : ℕ) → Distinct (tried fuel 2 base_slug)
    unfolding tried
    tried-Distinct zero = tt
    tried-Distinct (suc fuel) = (
      λ m. let (n, (later, e)) = In-tried fuel 2 base_slug m in longer n (sym e),
      numbered-Distinct fuel 2,
    )

module _ (p : Prisma) where
  taken-In : (xs : List String) (s : String) → any (λ x. x == s) xs ≡ true → In s xs
  taken-In [] s h = absurd (ground arith)
  taken-In (x ∷ xs) s h = ground (arith, taken-In xs s, eq_iff x s)

  -- If numbered slugs with different numbers differ, and differ from the base slug, the search for
  -- a slug ends: within as many steps as there are knowledge bases, and one, it finds a slug that
  -- no knowledge base has.
  pub generate_unique_slug_lem :
      (t : SlugTexts) (name : String) (db : Db p)
      → ((n m : ℕ) → numbered t (t.slugify name) n ≡ numbered t (t.slugify name) m → n ≡ m)
      → ((n : ℕ) → numbered t (t.slugify name) n ≢ t.slugify name)
      → (s : String) × ((generate_unique_slug p t name db ≡ some s) × (slug_taken p db s ≡ false))
  unfolding generate_unique_slug
  generate_unique_slug_lem t name db injective longer =
      elim (next_free-cases t (slug_taken p db) (t.slugify name) (suc (length (slugs p db))) 2
        (t.slugify name)) [
          | inl found ↦ found
          | inr all ↦ absurd (
              omega (
                arith,
                length-tried t (slug_taken p db) (t.slugify name) (suc (length (slugs p db))) 2
                    (t.slugify name),
                Distinct-length-le
                    (tried t (slug_taken p db) (t.slugify name) (suc (length (slugs p db))) 2
                      (t.slugify name))
                    (slugs p db)
                    (tried-Distinct t (slug_taken p db) (t.slugify name) injective longer
                      (suc (length (slugs p db))))
                    (λ s m. taken-In (slugs p db) s (unfold slug_taken in all s m)),
              ))
        ]
