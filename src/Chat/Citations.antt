-- ===== src/Chat/Citations.antt =====
-- services/api/src/chat/citation-assembler.service.ts: `assemble`, from the chunks that the model
-- says it used to the citations of the answer. How well a chunk supports the answer is computed
-- with floating-point numbers on texts: `prepare`, with a rounded score and the snippet, is a
-- parameter. Scores are in millionths.
pub mod Laws
use rag_stack_monorepo.Prelude.{
  ℕ, suc, ◌+◌, String, refl, ◌⊎◌, inl, inr, Bool, true, false, not, ◌&&◌, ◌||◌, Option, none, some,
  List, [], ◌∷◌, ◌++◌, map, arith, ◌==◌, eq_iff, eq_refl, ltb, leb, eqb, if◌then◌else◌, string_eq,
  pair_eq, length, filter, append,
}
use rag_stack_monorepo.Chat.{
  RetrievalCandidate, Texts, compute_jaccard, below, near, dedupe_ordered,
}
use rag_stack_monorepo.Chat.Merge.{Place, before, same, after, higher_first}

-- What `prepareCandidate` computes of a chunk; there is none where no snippet can be cut.
pub record Support : Type 0 where
  pub support_score : ℕ
  pub answer_coverage : ℕ
  pub query_coverage : ℕ
  pub snippet : String

pub record PreparedCitationCandidate : Type 0 where
  pub chunk : RetrievalCandidate
  pub support : Support
  pub grounding_rank : ℕ

pub record CitationTools : Type 0 where
  pub texts : Texts
  pub trim : String → String
  -- `prepareCandidate` for the query and the answer at hand
  pub prepare : RetrievalCandidate → Option Support
  -- localeCompare(a, b) > 0
  pub locale_after : String → String → Bool

pub record CitationView : Type 0 where
  pub rank : ℕ
  pub score : ℕ
  pub chunk_id : String
  pub document_id : String
  pub document_title : String
  pub snippet : String
  pub page : Option ℕ
  pub section : Option String

pub record CitationAssemblyRejection : Type 0 where
  pub chunk_id : String
  pub reason : String

pub record CitationAssemblyResult : Type 0 where
  pub citations : List CitationView
  pub requested_chunk_ids : List String
  pub accepted_chunk_ids : List String
  pub rejected_chunk_ids : List CitationAssemblyRejection

-- MIN_CITATION_SUPPORT_SCORE, in millionths
abbrev pub min_citation_support_score : ℕ
min_citation_support_score = 100000

-- `searchText || content`
abbrev text_of : RetrievalCandidate → String
text_of c = if c.search_text == "" then c.content else c.search_text

-- both pages are known and equal
abbrev same_page : Option ℕ → Option ℕ → Bool
same_page none _ = false
same_page (some a) none = false
same_page (some a) (some b) = eqb a b

-- The chunk with that id in the grounding set, with its rank. A later chunk takes the place of an
-- earlier one with the same id, as in a map.
unfoldable pub grounded_from :
    ℕ → List RetrievalCandidate → String → Option (RetrievalCandidate × ℕ)
grounded_from n [] id = none
grounded_from n (c ∷ cs) id = elim (grounded_from (suc n) cs id) [
  | some g ↦ some g
  | none ↦ if c.chunk_id == id then some (c, n) else none
]

unfoldable pub to_citation_view : PreparedCitationCandidate → ℕ → CitationView
to_citation_view c rank = record {
  rank = rank;
  score = c.support.support_score;
  chunk_id = c.chunk.chunk_id;
  document_id = c.chunk.document_id;
  document_title = c.chunk.document_title;
  snippet = c.support.snippet;
  page = c.chunk.page_number;
  section = c.chunk.section_title;
}

unfoldable pub to_citation_views : ℕ → List PreparedCitationCandidate → List CitationView
unfolding to_citation_view
to_citation_views n [] = []
to_citation_views n (c ∷ cs) = to_citation_view c n ∷ to_citation_views (suc n) cs

abbrev rejection : String → String → CitationAssemblyRejection
rejection id reason = record { chunk_id = id; reason = reason }

-- The lower number goes first, and a missing page after all pages.
abbrev lower_first : ℕ → ℕ → Place → Place
lower_first left right next = higher_first right left next

abbrev page_first : Option ℕ → Option ℕ → Place → Place
page_first none none next = next
page_first (some a) none next = before
page_first none (some b) next = after
page_first (some a) (some b) next = lower_first a b next

module _ (k : CitationTools) where
  -- The first step for each requested chunk: a candidate, or the reason against it.
  unfoldable pub consider :
      List RetrievalCandidate → String → CitationAssemblyRejection ⊎ PreparedCitationCandidate
  unfolding grounded_from
  consider chunks id = elim (grounded_from 1 chunks id) [
    | none ↦ inl (rejection id "not_in_grounding_set")
    | some (chunk, rank) ↦ elim (k.prepare chunk) [
      | none ↦ inl (rejection id "snippet_unavailable")
      | some support ↦
          if ltb support.support_score min_citation_support_score
          then inl (rejection id "support_too_weak")
          else inr (record { chunk = chunk; support = support; grounding_rank = rank })
    ]
  ]

  -- All requested chunks: the candidates, and the rejections.
  unfoldable pub prepare_all :
      List RetrievalCandidate
      → List String
      → List PreparedCitationCandidate × List CitationAssemblyRejection
  unfolding consider
  prepare_all chunks [] = ([], [])
  prepare_all chunks (id ∷ ids) =
      let rest = prepare_all chunks ids in
      elim (consider chunks id) [ inl r ↦ (rest.0, r ∷ rest.1) | inr c ↦ (c ∷ rest.0, rest.1) ]

  unfoldable pub compare_prepared_candidates :
      PreparedCitationCandidate → PreparedCitationCandidate → Place
  compare_prepared_candidates left right =
      higher_first left.support.support_score right.support.support_score (
        higher_first left.chunk.hybrid_score right.chunk.hybrid_score (
          higher_first left.support.answer_coverage right.support.answer_coverage (
            higher_first left.support.query_coverage right.support.query_coverage (
              lower_first left.grounding_rank right.grounding_rank (
                page_first left.chunk.page_number right.chunk.page_number (
                  if k.locale_after left.chunk.chunk_id right.chunk.chunk_id
                  then after
                  else if k.locale_after right.chunk.chunk_id left.chunk.chunk_id
                  then before
                  else same))))))

  abbrev same_section : RetrievalCandidate → RetrievalCandidate → Bool
  same_section a b =
      k.texts.normalize_text_for_match a.section_title
      == k.texts.normalize_text_for_match b.section_title

  abbrev near_adjacent_chunk : RetrievalCandidate → RetrievalCandidate → Bool
  near_adjacent_chunk a b =
      (a.document_version_id == b.document_version_id) && near a.chunk_no b.chunk_no

  unfoldable pub find_redundant_reason : RetrievalCandidate → RetrievalCandidate → Option String
  unfolding compute_jaccard
  find_redundant_reason a b =
      if a.chunk_id == b.chunk_id
      then some (append "duplicate_of_" a.chunk_id)
      else if not (a.document_id == b.document_id)
      then none
      else if not (below (compute_jaccard k.texts (text_of a) (text_of b)) 90)
          && near_adjacent_chunk a b
      then some (append "near_duplicate_of_" a.chunk_id)
      else if same_section a b
          && ((same_page a.page_number b.page_number || near_adjacent_chunk a b)
              && not (below (compute_jaccard k.texts (text_of a) (text_of b)) 82))
      then some (append "same_section_redundant_with_" a.chunk_id)
      else none

  -- The first reason that a selected candidate gives against the next one.
  unfoldable pub redundant_reason :
      List PreparedCitationCandidate → PreparedCitationCandidate → Option String
  unfolding find_redundant_reason
  redundant_reason [] c = none
  redundant_reason (s ∷ ss) c = elim (find_redundant_reason s.chunk c.chunk) [
    | some reason ↦ some reason
    | none ↦ redundant_reason ss c
  ]

  -- Why the next candidate is not selected, if it is not.
  unfoldable pub refusal :
      ℕ → List PreparedCitationCandidate → PreparedCitationCandidate → Option String
  unfolding redundant_reason
  refusal limit selected c = elim (redundant_reason selected c) [
    | some reason ↦ some reason
    | none ↦ if leb limit (length selected) then some "citation_limit_exceeded" else none
  ]

  -- The loop over the sorted candidates, from a selection on.
  unfoldable pub select :
      ℕ
      → List PreparedCitationCandidate
      → List PreparedCitationCandidate
      → List PreparedCitationCandidate × List CitationAssemblyRejection
  unfolding refusal
  select limit selected [] = (selected, [])
  select limit selected (c ∷ cs) = elim (refusal limit selected c) [
    | some reason ↦
        let rest = select limit selected cs in (rest.0, rejection c.chunk.chunk_id reason ∷ rest.1)
    | none ↦ select limit (selected ++ (c ∷ [])) cs
  ]

  abbrev goes_behind : Place → Bool
  goes_behind after = true
  goes_behind before = false
  goes_behind same = false

  unfoldable pub insert_prepared :
      PreparedCitationCandidate → List PreparedCitationCandidate → List PreparedCitationCandidate
  unfolding compare_prepared_candidates
  insert_prepared c [] = c ∷ []
  insert_prepared c (x ∷ xs) =
      let rest = insert_prepared c xs in
      if goes_behind (compare_prepared_candidates c x) then x ∷ rest else c ∷ x ∷ xs

  unfoldable pub sort_prepared : List PreparedCitationCandidate → List PreparedCitationCandidate
  unfolding insert_prepared
  sort_prepared [] = []
  sort_prepared (c ∷ cs) = insert_prepared c (sort_prepared cs)

  unfoldable pub requested_ids : List String → List String
  unfolding dedupe_ordered
  requested_ids used = dedupe_ordered (filter (λ id. not (id == "")) (map k.trim used))

  unfoldable pub chosen :
      ℕ
      → List RetrievalCandidate
      → List String
      → List PreparedCitationCandidate × List CitationAssemblyRejection
  unfolding prepare_all sort_prepared select
  chosen limit chunks ids = select limit [] (sort_prepared (prepare_all chunks ids).0)

  unfoldable pub assemble : ℕ → List String → List RetrievalCandidate → CitationAssemblyResult
  unfolding requested_ids prepare_all chosen to_citation_views
  assemble max_citations used selected_chunks =
      let ids = requested_ids used in
      let choice = chosen max_citations selected_chunks ids in
      let citations = to_citation_views 1 choice.0 in
      record {
        citations = citations;
        requested_chunk_ids = ids;
        accepted_chunk_ids = map (λ (v : CitationView). v.chunk_id) citations;
        rejected_chunk_ids = (prepare_all selected_chunks ids).1 ++ choice.1;
      }
