-- ===== src/Examples/Access.antt =====
-- Access to a knowledge base, and its owners.
use rag_stack_monorepo.Prelude.{
  ◌≡◌, refl, ◌≢◌, ◌↔◌, true, some, [], ◌∷◌, eq_iff, string_eq, pair_eq, pair_beq, String,
}
use rag_stack_monorepo.Examples.{running, ann, person, world}
use rag_stack_monorepo.Prisma.Lists.{list_prisma}
use rag_stack_monorepo.Schema.{Db, SystemRole, KbRole}
use rag_stack_monorepo.Authorization.Roles.{Holds, has_any_system_role, has_any_system_role_iff}
use rag_stack_monorepo.Authorization.Access.{assert_knowledge_base_role}
use rag_stack_monorepo.Authorization.Access.Laws.{
  decide_access, assert_knowledge_base_role_lem, outsider_sees_nothing,
}
use rag_stack_monorepo.KnowledgeBases.{add_member, remove_member}
use rag_stack_monorepo.KnowledgeBases.Owners.{AllOwned, add_member-AllOwned, remove_member-AllOwned}

kb_given : ◌≢◌ {A = String} "kb" ""
kb_given e = cc ((eq_iff "kb" "").1 e)

assert_knowledge_base_role_lem_example :
    assert_knowledge_base_role list_prisma ann "kb" (KbRole.owner ∷ []) world ≡ (
      decide_access ann
          (KbRole.owner ∷ [])
          "kb"
          (list_prisma.find_unique "kb" world.kbs)
          (list_prisma.find_unique ("kb", "ann") world.members),
      world,
    )
assert_knowledge_base_role_lem_example =
    assert_knowledge_base_role_lem list_prisma ann "kb" kb_given (KbRole.owner ∷ []) world

abbrev emptied : Db list_prisma
emptied = record world { kbs = [] }

outsider_sees_nothing_example :
    (assert_knowledge_base_role list_prisma (person "eve" "USER") "kb" (KbRole.owner ∷ []) world).0
    ≡ (assert_knowledge_base_role list_prisma
        (person "eve" "USER")
        "kb"
        (KbRole.owner ∷ [])
        emptied).0
unfolding running pair_beq
outsider_sees_nothing_example =
    outsider_sees_nothing list_prisma (person "eve" "USER") "kb" kb_given (KbRole.owner ∷ []) world
      emptied refl refl refl

has_any_system_role_iff_example :
    (has_any_system_role (some ann) (SystemRole.user ∷ []) ≡ true)
    ↔ Holds (some ann) (SystemRole.user ∷ [])
has_any_system_role_iff_example = has_any_system_role_iff (some ann) SystemRole.user []

owned : AllOwned list_prisma (λ id. id ≡ "kb") world
unfolding running pair_beq
owned kb_id e = ("ann", record { role = KbRole.owner }, rw e refl, refl)

add_member-AllOwned_example :
    AllOwned list_prisma
      (λ id. id ≡ "kb")
      (add_member list_prisma "kb" ann "ann" KbRole.viewer world).1
add_member-AllOwned_example =
    add_member-AllOwned list_prisma (λ id. id ≡ "kb") "kb" ann "ann" KbRole.viewer world owned

remove_member-AllOwned_example :
    AllOwned list_prisma (λ id. id ≡ "kb") (remove_member list_prisma "kb" ann "bob" world).1
remove_member-AllOwned_example =
    remove_member-AllOwned list_prisma (λ id. id ≡ "kb") "kb" ann "bob" world owned
