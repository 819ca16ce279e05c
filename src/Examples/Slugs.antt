-- ===== src/Examples/Slugs.antt =====
-- The slug of a second knowledge base with the same name.
use rag_stack_monorepo.Prelude.{
  ℕ, zero, suc, ◌+◌, String, ◌≡◌, refl, ap, false, some, arith, string_eq, pair_eq, append,
}
use Prim.Native.String.{count}
use text.Mathlib.TextLemmas
use rag_stack_monorepo.Prisma.Lists.{list_prisma}
use rag_stack_monorepo.KnowledgeBases.Slug.{SlugTexts, numbered, generate_unique_slug, slug_taken}
use rag_stack_monorepo.KnowledgeBases.Slug.Free.{generate_unique_slug_lem}
use rag_stack_monorepo.Examples.{world}

-- A number written with that many strokes.
abbrev strokes : ℕ → String
strokes zero = ""
strokes (suc n) = append "1" (strokes n)

count-strokes : (n : ℕ) → count (strokes n) ≡ n
count-strokes zero = refl
count-strokes (suc n) = omega (arith, TextLemmas.length-append "1" (strokes n), count-strokes n)

abbrev slug_texts : SlugTexts
slug_texts = record { slugify = λ s. s; decimal = strokes }

count-numbered : (n : ℕ) → count (numbered slug_texts "support" n) ≡ 8 + n
unfolding numbered
count-numbered n = omega (
  arith,
  TextLemmas.length-append "support" (append "-" (strokes n)),
  TextLemmas.length-append "-" (strokes n),
  count-strokes n,
)

generate_unique_slug_lem_example :
    (s : String) × ((generate_unique_slug list_prisma slug_texts "support" world ≡ some s)
      × (slug_taken list_prisma world s ≡ false))
generate_unique_slug_lem_example =
    generate_unique_slug_lem list_prisma slug_texts "support" world
      (λ n m e. omega (arith, ap count e, count-numbered n, count-numbered m))
      (λ n e. omega (arith, ap count e, count-numbered n))
