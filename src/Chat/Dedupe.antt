-- ===== src/Chat/Dedupe.antt =====
-- What the list of the different strings of a list holds, which the services of chat and of evals take
-- from `new Set(...)`.
use rag_stack_monorepo.Prelude.{
  String, List, [], ◌∷◌, arith, ◌==◌, eq_refl, not, filter, inl, inr, In, In-of_filter, Distinct,
  string_eq, pair_eq, Bool, Bool-cases,
}
use rag_stack_monorepo.Chat.{dedupe_ordered}

filter-Distinct :
    (keep : String → Bool) (xs : List String) → Distinct xs → Distinct (filter keep xs)
filter-Distinct keep [] d = tt
filter-Distinct keep (x ∷ xs) d = elim (Bool-cases (keep x)) [
  | inl t ↦ rw t ((λ m. d.0 (In-of_filter keep x xs m).0), filter-Distinct keep xs d.1)
  | inr f ↦ rw f (filter-Distinct keep xs d.1)
]

pub dedupe_ordered-Distinct : (xs : List String) → Distinct (dedupe_ordered xs)
unfolding dedupe_ordered
dedupe_ordered-Distinct [] = tt
dedupe_ordered-Distinct (x ∷ xs) = (
  λ m.
      absurd
        (ground (arith, (In-of_filter (λ y. not (x == y)) x (dedupe_ordered xs) m).1, eq_refl x)),
  filter-Distinct (λ y. not (x == y)) (dedupe_ordered xs) (dedupe_ordered-Distinct xs),
)

pub In-of_dedupe_ordered : (xs : List String) (s : String) → In s (dedupe_ordered xs) → In s xs
unfolding dedupe_ordered
In-of_dedupe_ordered [] s m = m
In-of_dedupe_ordered (x ∷ xs) s (inl e) = inl e
In-of_dedupe_ordered (x ∷ xs) s (inr m) =
    inr (In-of_dedupe_ordered xs s (In-of_filter (λ y. not (x == y)) s (dedupe_ordered xs) m).0)
