-- ===== src/Chat/LocalAnswer.antt =====
-- services/api/src/chat/local-grounded-answer.service.ts: the answer that is put together from the
-- chunks themselves where no model is configured. Cutting and cleaning a snippet, and the splitting
-- into words, are fields of `LocalTools`; scores are in millionths, and what is weak
-- beside the best is a field too.
pub mod Chosen
use rag_stack_monorepo.Prelude.{
  ℕ, ◌+◌, String, refl, Bool, true, false, not, ◌&&◌, ◌||◌, Option, none, some, List, [], ◌∷◌, ◌++◌,
  map, arith, ◌==◌, eq_iff, eq_refl, leb, if◌then◌else◌, string_eq, pair_eq, length, filter, any,
  append,
}
use rag_stack_monorepo.Chat.{RetrievalCandidate, contains_string, dedupe_ordered}
use rag_stack_monorepo.Chat.Ask.{ChatStatus, ModelAnswer}
use text.Mathlib.Text.{starts_with}

pub record LocalTools : Type 0 where
  -- `length`
  pub size : String → ℕ
  -- `slice(0, n)`
  pub first : ℕ → String → String
  pub words : String → List String
  -- `buildSnippet` for the question at hand
  pub build_snippet : RetrievalCandidate → Option String
  pub clean_snippet : String → String
  -- score < Math.max(0.08, top * 0.75) for the best score and another one, in the arithmetic of the
  -- language
  pub weak_beside : ℕ → ℕ → Bool
  -- the test by /[.!?]$/
  pub ends_sentence : String → Bool

-- A snippet with the chunk that it is cut from.
pub record Snippet : Type 0 where
  pub chunk_id : String
  pub text : String

abbrev pub max_local_grounded_chunks : ℕ
max_local_grounded_chunks = 3

abbrev local_stop_words : List String
local_stop_words =
    "about" ∷ "after" ∷ "before" ∷ "from" ∷ "have" ∷ "into" ∷ "that" ∷ "their" ∷ "them" ∷ "they"
    ∷ "this" ∷ "what" ∷ "when" ∷ "where" ∷ "which" ∷ "while" ∷ "with" ∷ []

abbrev top_of : List RetrievalCandidate → ℕ
top_of [] = 0
top_of (c ∷ cs) = c.hybrid_score

abbrev pub none_chosen : List RetrievalCandidate → Bool
none_chosen [] = true
none_chosen (c ∷ cs) = false

-- `join(" ")`
unfoldable pub joined : List String → String
joined [] = ""
joined (s ∷ []) = s
joined (s ∷ t ∷ rest) = append s (append " " (joined (t ∷ rest)))

module _ (k : LocalTools) where
  unfoldable pub extract_terms : String → List String
  extract_terms input =
      filter (λ token. not (contains_string local_stop_words token))
        (filter (λ token. leb 3 (k.size token)) (k.words input))

  unfoldable pub terms_match : String → String → Bool
  terms_match left right =
      if left == right
      then true
      else leb 4 (k.size left)
        && (leb 4 (k.size right) && (starts_with left right || starts_with right left))

  abbrev text_of : RetrievalCandidate → String
  text_of c = if c.search_text == "" then c.content else c.search_text

  unfoldable pub matched_terms : List String → RetrievalCandidate → List String
  unfolding extract_terms terms_match
  matched_terms query c =
      let chunk_terms = extract_terms (text_of c) in
      filter (λ term. any (terms_match term) chunk_terms) query

  -- A chunk after the first is passed over if it is weak beside the best, or adds nothing.
  unfoldable pub passed_over :
      ℕ → List RetrievalCandidate → List String → List String → RetrievalCandidate → Bool
  passed_over top chosen covered matched c =
      not (none_chosen chosen)
      && (k.weak_beside top c.hybrid_score
          || not (any (λ term. not (contains_string covered term)) matched))

  -- The loop, from a choice on and with the terms that it covers.
  unfoldable pub choose :
      List String
      → ℕ
      → List RetrievalCandidate
      → List String
      → List RetrievalCandidate
      → List RetrievalCandidate
  unfolding matched_terms passed_over
  choose query top chosen covered [] = chosen
  choose query top chosen covered (c ∷ cs) = elim (leb max_local_grounded_chunks (length chosen)) [
    | true ↦ chosen
    | false ↦ elim (passed_over top chosen covered (matched_terms query c) c) [
      | true ↦ choose query top chosen covered cs
      | false ↦ choose query top (chosen ++ (c ∷ [])) (matched_terms query c ++ covered) cs
    ]
  ]

  unfoldable pub select_chunks : String → List RetrievalCandidate → List RetrievalCandidate
  unfolding choose extract_terms
  select_chunks question [] = []
  select_chunks question (c ∷ cs) =
      let chosen = choose (extract_terms question) c.hybrid_score [] [] (c ∷ cs) in
      if none_chosen chosen then c ∷ [] else chosen

  abbrev pub snippet_text : RetrievalCandidate → String
  snippet_text c = elim (k.build_snippet c) [
    | none ↦ k.clean_snippet c.content
    | some s ↦ k.clean_snippet s
  ]

  -- The snippets that are not empty.
  unfoldable pub snippets_of : List RetrievalCandidate → List Snippet
  snippets_of [] = []
  snippets_of (c ∷ cs) =
      let rest = snippets_of cs in
      if snippet_text c == ""
      then rest
      else record { chunk_id = c.chunk_id; text = snippet_text c } ∷ rest

  unfoldable pub ensure_sentence : String → String
  ensure_sentence value = if (value == "") || k.ends_sentence value then value else append value "."

  unfoldable pub compose_answer : List String → String
  unfolding ensure_sentence dedupe_ordered joined
  compose_answer snippets = k.first 1600 (joined (dedupe_ordered (map ensure_sentence snippets)))

  abbrev answer_from : List Snippet → ModelAnswer
  answer_from [] = record {
    status = ChatStatus.insufficient_data;
    answer = "Tôi không thể tổng hợp câu trả lời có trích dẫn từ các nguồn dữ liệu hiện có.";
    used_chunk_ids = [];
  }
  answer_from (s ∷ ss) = record {
    status = ChatStatus.grounded;
    answer = compose_answer (map (λ (x : Snippet). x.text) (s ∷ ss));
    used_chunk_ids = map (λ (x : Snippet). x.chunk_id) (s ∷ ss);
  }

  unfoldable pub create_grounded_answer : String → List RetrievalCandidate → ModelAnswer
  unfolding select_chunks snippets_of compose_answer
  create_grounded_answer question selected =
      answer_from (snippets_of (select_chunks question selected))
