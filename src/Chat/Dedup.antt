-- ===== src/Chat/Dedup.antt =====
-- services/api/src/chat/retrieval.service.ts: `suppressDuplicates` and `dedupReason`. The source
-- writes the rank and the reason into each candidate; here the candidates so marked are returned
-- beside the selection.
pub mod Laws
use rag_stack_monorepo.Prelude.{
  ℕ, suc, ◌+◌, String, Bool, true, false, not, ◌&&◌, ◌||◌, Option, none, some, List, [], ◌∷◌, ◌++◌,
  ◌==◌, ltb, if◌then◌else◌, is_some, string_eq, pair_eq, length, append, find,
}
use rag_stack_monorepo.Chat.{RetrievalCandidate, Texts, compute_jaccard, below, near}

-- `Boolean(left || right) && left !== right`
abbrev section_changed : String → String → Bool
section_changed left right = (not (left == "") || not (right == "")) && not (left == right)

abbrev is_empty : List String → Bool
is_empty [] = true
is_empty (_ ∷ _) = false

unfoldable pub has_unique_phrase : RetrievalCandidate → RetrievalCandidate → Bool
has_unique_phrase left right =
    ltb left.debug.lexical_phrase_coverage right.debug.lexical_phrase_coverage

unfoldable pub has_unique_structure : Texts → RetrievalCandidate → RetrievalCandidate → Bool
has_unique_structure t left right =
    t.exceeds left.structural_score right.structural_score
    && not (is_empty right.debug.structural_signals)

-- The test from the sections on, for neighbouring chunks whose tokens overlap.
unfoldable pub near_duplicate : Texts → RetrievalCandidate → RetrievalCandidate → Option String
unfolding has_unique_phrase has_unique_structure
near_duplicate t left right =
    if section_changed (t.normalize_text_for_match left.section_title)
        (t.normalize_text_for_match right.section_title)
      && (has_unique_phrase left right || has_unique_structure t left right)
    then none
    else if has_unique_phrase left right || has_unique_structure t left right
    then none
    else some (append "near-duplicate of " left.chunk_id)

unfoldable pub dedup_reason : Texts → RetrievalCandidate → RetrievalCandidate → Option String
unfolding near_duplicate compute_jaccard
dedup_reason t left right =
    if (left.chunk_id == right.chunk_id) || (left.checksum == right.checksum)
    then some (append "duplicate of " left.chunk_id)
    else if not (left.document_version_id == right.document_version_id)
        || not (near left.chunk_no right.chunk_no)
    then none
    else if below (compute_jaccard t left.search_text right.search_text) 88
    then none
    else near_duplicate t left right

-- `candidate.debug.rankAfterDedup = rank; candidate.debug.dedupReason = reason`
unfoldable pub mark : RetrievalCandidate → Option ℕ → Option String → RetrievalCandidate
mark c rank reason = record c {
  debug = record c.debug { rank_after_dedup = rank; dedup_reason = reason };
}

-- The loop, from a selection on: the selection at its end, and the candidates as it marks them.
unfoldable pub suppress :
    Texts
    → List RetrievalCandidate
    → List RetrievalCandidate
    → List RetrievalCandidate × List RetrievalCandidate
unfolding dedup_reason mark
suppress t selected [] = (selected, [])
suppress t selected (c ∷ cs) =
    elim (find (λ existing. is_some (dedup_reason t existing c)) selected) [
      | none ↦
          let kept = mark c (some (suc (length selected))) none in
          let rest = suppress t (selected ++ (kept ∷ [])) cs in (rest.0, kept ∷ rest.1)
      | some duplicate_of ↦
          let rest = suppress t selected cs in
          (rest.0, mark c none (dedup_reason t duplicate_of c) ∷ rest.1)
    ]

unfoldable pub suppress_duplicates :
    Texts → List RetrievalCandidate → List RetrievalCandidate × List RetrievalCandidate
unfolding suppress
suppress_duplicates t candidates = suppress t [] candidates
