-- ===== src/KnowledgeBases/Slug.antt =====
-- `generateUniqueSlug` of services/api/src/knowledge-bases/knowledge-bases.service.ts: the base slug
-- of a name, then the base with -2, -3 and so on, until no knowledge base has the slug. The loop
-- runs on fuel, which is one more than there are knowledge bases.
pub mod Free
use rag_stack_monorepo.Prelude.{
  ℕ, zero, suc, ◌-◌, String, refl, Bool, true, false, Option, none, some, List, map, arith, ◌==◌,
  eq_iff, eq_refl, if◌then◌else◌, string_eq, pair_eq, length, any, append,
}
use rag_stack_monorepo.Prisma.{Prisma}
use rag_stack_monorepo.Schema.{Db, KnowledgeBase}

-- The functions on strings: `slugifyKnowledgeBaseName`, whose regular expressions are the language's,
-- and the decimal text of a number.
pub record SlugTexts : Type 0 where
  pub slugify : String → String
  pub decimal : ℕ → String

-- `${baseSlug}-${suffix}`
unfoldable pub numbered : SlugTexts → String → ℕ → String
numbered t base_slug suffix = append base_slug (append "-" (t.decimal suffix))

-- The loop, with `taken` for the look-up of the slug.
unfoldable pub next_free : SlugTexts → (String → Bool) → String → ℕ → ℕ → String → Option String
unfolding numbered
next_free t taken base_slug zero suffix candidate = none
next_free t taken base_slug (suc fuel) suffix candidate =
    let rest = next_free t taken base_slug fuel (suc suffix) (numbered t base_slug suffix) in
    if taken candidate then rest else some candidate

module _ (p : Prisma) where
  abbrev pub any_kb : String → KnowledgeBase → Bool
  any_kb _ _ = true

  abbrev pub slugs : Db p → List String
  slugs db = map (λ x. x.1.slug) (p.find_many (λ _. 0) any_kb db.kbs)

  -- findUnique({ where: { slug } }), where the slugs are without capital letters
  unfoldable pub slug_taken : Db p → String → Bool
  slug_taken db slug = any (λ s. s == slug) (slugs db)

  unfoldable pub generate_unique_slug : SlugTexts → String → Db p → Option String
  unfolding next_free slug_taken
  generate_unique_slug t name db =
      next_free t (slug_taken db) (t.slugify name) (suc (length (slugs db))) 2 (t.slugify name)
