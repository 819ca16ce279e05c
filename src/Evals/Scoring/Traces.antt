-- ===== src/Evals/Scoring/Traces.antt =====
-- What the best grade for the citations says, in `computeCitationIntegrity` of
-- services/api/src/evals/eval-scoring.service.ts.
use rag_stack_monorepo.Prelude.{
  ℕ, ◌≤◌, ◌<◌, String, ◌≡◌, refl, inl, inr, false, some, List, [], ◌∷◌, map, arith, eq_iff,
  Bool-cases, Option-cases, string_eq, pair_eq, length, any, In, All, Distinct,
}
use mathlib.Core.Path.{subst}
use rag_stack_monorepo.Chat.{contains_string}
use rag_stack_monorepo.Chat.Citations.{CitationView}
use rag_stack_monorepo.Evals.Types.{EvalExecutionResult, EvalSelectedSource, EvalExpectedOutcome}
use rag_stack_monorepo.Evals.Scoring.{
  ScoringTools, source_by_chunk, repeats_chunk, untraceable, compute_citation_integrity,
  dimension_result,
}
use rag_stack_monorepo.Evals.Scoring.Case.{score_or_nought}

-- A source with the citation's chunk and document is among the sources.
abbrev pub TracedTo : List EvalSelectedSource → CitationView → Type 0
TracedTo sources c =
    (s : EvalSelectedSource) × (In s sources
      × ((s.chunk_id ≡ c.chunk_id) × (s.document_id ≡ c.document_id)))

abbrev pub chunks_of : List CitationView → List String
chunks_of = map (λ (c : CitationView). c.chunk_id)

-- There are citations, no more than the limit, of different chunks, each traced to a source.
pub record Intact (limit : ℕ) (e : EvalExecutionResult) : Type 0 where
  pub present : 0 < length e.citations
  pub within : length e.citations ≤ limit
  pub unique : Distinct (chunks_of e.citations)
  pub traced : All (TracedTo e.selected_sources) e.citations

found_source :
    (ss : List EvalSelectedSource) (id : String) (s : EvalSelectedSource)
    → source_by_chunk ss id ≡ some s
    → In s ss × (s.chunk_id ≡ id)
unfolding source_by_chunk
found_source [] id s h = absurd (ground arith)
found_source (x ∷ ss) id s h = elim (Option-cases (source_by_chunk ss id)) [
  | inl n ↦ ground (arith, eq_iff x.chunk_id id)
  | inr (found, f) ↦ ground (arith, found_source ss id found)
]

traced_source :
    (ss : List EvalSelectedSource) (c : CitationView) → untraceable ss c ≡ false → TracedTo ss c
unfolding untraceable
traced_source ss c h = elim (Option-cases (source_by_chunk ss c.chunk_id)) [
  | inl n ↦ absurd (ground arith)
  | inr (s, f) ↦
      let q = found_source ss c.chunk_id s f in
      (s, (q.0, (q.1, ground (arith, eq_iff s.document_id c.document_id))))
]

none_untraceable :
    (ss : List EvalSelectedSource) (cs : List CitationView)
    → any (untraceable ss) cs ≡ false
    → All (TracedTo ss) cs
none_untraceable ss [] h = tt
none_untraceable ss (c ∷ cs) h = elim (Bool-cases (untraceable ss c)) [
  | inl t ↦ absurd (ground arith)
  | inr f ↦ (traced_source ss c f, none_untraceable ss cs (ground arith))
]

not_contained : (xs : List String) (s : String) → contains_string xs s ≡ false → ¬ (In s xs)
not_contained [] s h m = m
not_contained (x ∷ xs) s h m = ground (arith, eq_iff x s, not_contained xs s)

-- Chunks that do not repeat are different, and were not seen before.
unrepeated :
    (seen : List String) (cs : List CitationView)
    → repeats_chunk seen cs ≡ false
    → Distinct (chunks_of cs) × ((id : String) → In id seen → ¬ (In id (chunks_of cs)))
unfolding repeats_chunk
unrepeated seen [] h = (tt, λ id m n. n)
unrepeated seen (c ∷ cs) h = elim (Bool-cases (contains_string seen c.chunk_id)) [
  | inl t ↦ absurd (ground arith)
  | inr f ↦
      let rest = unrepeated (c.chunk_id ∷ seen) cs (ground arith) in
      let fresh = not_contained seen c.chunk_id f in
      (
        (rest.1 c.chunk_id (inl refl), rest.0),
        λ id m. elim [ inl e ↦ fresh (subst (λ x. In x seen) e m) | inr n ↦ rest.1 id (inr m) n ],
      )
]

module _ (k : ScoringTools) where
  pub integrity-Intact :
      (e : EvalExecutionResult)
      → 2
        ≤ score_or_nought (compute_citation_integrity k EvalExpectedOutcome.grounded_answer e).score
      → Intact k.citation_limit e
  unfolding compute_citation_integrity dimension_result
  integrity-Intact e h = record {
    present = ground arith;
    within = ground arith;
    unique = (unrepeated [] e.citations (ground arith)).0;
    traced = none_untraceable e.selected_sources e.citations (ground arith);
  }

  pub refusal-uncited :
      (e : EvalExecutionResult)
      → 2 ≤ score_or_nought (compute_citation_integrity k EvalExpectedOutcome.refusal e).score
      → e.citations ≡ []
  unfolding compute_citation_integrity dimension_result
  refusal-uncited e h = ground arith
