-- ===== src/Chat/LocalAnswer/Chosen.antt =====
-- The chunks that the answer of
-- services/api/src/chat/local-grounded-answer.service.ts names.
use rag_stack_monorepo.Prelude.{
  ℕ, suc, ◌≤◌, ◌<◌, String, ◌≡◌, refl, ◌≢◌, ◌↔◌, inl, inr, List, [], ◌∷◌, ◌++◌, map, arith, leb,
  Bool-cases, string_eq, pair_eq, length, In, All, All-append, ◌==◌,
}
use rag_stack_monorepo.Chat.{RetrievalCandidate}
use rag_stack_monorepo.Chat.Ask.{ChatStatus, ModelAnswer}
use rag_stack_monorepo.Chat.LocalAnswer.{
  LocalTools, Snippet, none_chosen, matched_terms, passed_over, choose, select_chunks, snippets_of,
  answer_from, create_grounded_answer, extract_terms, snippet_text,
}

abbrev OneOf : List RetrievalCandidate → RetrievalCandidate → Type 0
OneOf chunks c = In c chunks

-- The identifier of one of the chunks.
abbrev pub IdOf : List RetrievalCandidate → String → Type 0
IdOf chunks id = (c : RetrievalCandidate) × (In c chunks × (c.chunk_id ≡ id))

-- The answer names at most three chunks, all of the given ones, and is called grounded exactly if it
-- names one.
pub record Extracted (chunks : List RetrievalCandidate) (a : ModelAnswer) : Type 0 where
  pub few : length a.used_chunk_ids ≤ 3
  pub given : All (IdOf chunks) a.used_chunk_ids
  pub grounded_iff : (a.status ≡ ChatStatus.grounded) ↔ (0 < length a.used_chunk_ids)

length-snoc :
    (xs : List RetrievalCandidate) (c : RetrievalCandidate)
    → length (xs ++ (c ∷ [])) ≡ suc (length xs)
length-snoc [] c = omega arith
length-snoc (x ∷ xs) c = omega (arith, length-snoc xs c)

abbrev ids_of : List Snippet → List String
ids_of = map (λ (x : Snippet). x.chunk_id)

length-ids : (ss : List Snippet) → length (ids_of ss) ≡ length ss
length-ids [] = omega arith
length-ids (s ∷ ss) = omega (arith, length-ids ss)

ids_given :
    (chunks : List RetrievalCandidate) (ss : List Snippet)
    → All (λ (s : Snippet). IdOf chunks s.chunk_id) ss
    → All (IdOf chunks) (ids_of ss)
ids_given chunks [] h = tt
ids_given chunks (s ∷ ss) h = (h.0, ids_given chunks ss h.1)

insufficient_not_grounded : ChatStatus.insufficient_data ≢ ChatStatus.grounded
insufficient_not_grounded e = ground arith

module _ (k : LocalTools) where
  -- A choice among the chunks stays one, of three at most.
  choose_lem :
      (chunks : List RetrievalCandidate) (query : List String) (top : ℕ)
      (chosen : List RetrievalCandidate) (covered : List String) (cs : List RetrievalCandidate)
      → All (OneOf chunks) chosen
      → length chosen ≤ 3
      → All (OneOf chunks) cs
      → All (OneOf chunks) (choose k query top chosen covered cs)
        × (length (choose k query top chosen covered cs) ≤ 3)
  unfolding choose
  choose_lem chunks query top chosen covered [] h n g = (h, n)
  choose_lem chunks query top chosen covered (c ∷ cs) h n g =
      elim (Bool-cases (leb 3 (length chosen))) [
        | inl full ↦ rw (choose, full) (h, n)
        | inr free ↦
            elim (Bool-cases (passed_over k top chosen covered (matched_terms k query c) c)) [
              | inl over ↦
                  rw (choose, free, over) (choose_lem chunks query top chosen covered cs h n g.1)
              | inr taken ↦
                  rw (choose, free, taken)
                    (choose_lem chunks query top (chosen ++ (c ∷ []))
                      (matched_terms k query c ++ covered) cs
                      (All-append (OneOf chunks) chosen (c ∷ []) h (g.0, tt))
                      (ground (arith, length-snoc chosen c)) g.1)
            ]
      ]

  all_of : (cs : List RetrievalCandidate) → All (OneOf cs) cs
  all_of cs = go cs (λ a m. m)
    where
      go :
          (xs : List RetrievalCandidate)
          → ((a : RetrievalCandidate) → In a xs → In a cs)
          → All (OneOf cs) xs
      go [] f = tt
      go (x ∷ xs) f = (f x (inl refl), go xs (λ a m. f a (inr m)))

  select_lem :
      (question : String) (chunks : List RetrievalCandidate)
      → All (OneOf chunks) (select_chunks k question chunks)
        × (length (select_chunks k question chunks) ≤ 3)
  unfolding select_chunks
  select_lem question [] = (tt, omega arith)
  select_lem question (c ∷ cs) =
      let chosen = choose k (extract_terms k question) c.hybrid_score [] [] (c ∷ cs) in
      let h =
        choose_lem (c ∷ cs) (extract_terms k question) c.hybrid_score [] [] (c ∷ cs) tt
          (omega arith) (all_of (c ∷ cs)) in
      elim (Bool-cases (none_chosen chosen)) [
        | inl t ↦ rw t ((inl refl, tt), omega arith)
        | inr f ↦ rw f h
      ]

  snippets_lem :
      (chunks cs : List RetrievalCandidate)
      → All (OneOf chunks) cs
      → All (λ (s : Snippet). IdOf chunks s.chunk_id) (snippets_of k cs)
        × (length (snippets_of k cs) ≤ length cs)
  unfolding snippets_of
  snippets_lem chunks [] h = (tt, omega arith)
  snippets_lem chunks (c ∷ cs) h =
      let rest = snippets_lem chunks cs h.1 in
      elim (Bool-cases (snippet_text k c == "")) [
        | inl t ↦ rw (snippets_of, t) (rest.0, omega (arith, rest.1))
        | inr f ↦ rw (snippets_of, f) (((c, (h.0, refl)), rest.0), omega (arith, rest.1))
      ]

  answer_lem :
      (chunks : List RetrievalCandidate) (ss : List Snippet)
      → All (λ (s : Snippet). IdOf chunks s.chunk_id) ss
      → length ss ≤ 3
      → Extracted chunks (answer_from k ss)
  answer_lem chunks [] h n = record {
    few = omega arith;
    given = tt;
    grounded_iff = (λ e. absurd (insufficient_not_grounded e), λ p. absurd (omega arith));
  }
  answer_lem chunks (s ∷ ss) h n = record {
    few = ground (arith, length-ids ss);
    given = (h.0, ids_given chunks ss h.1);
    grounded_iff = (λ _. omega arith, λ _. refl);
  }

  -- The local answer names at most three chunks, all of them among the chunks it was given, and it
  -- is called grounded exactly if it names one.
  pub create_grounded_answer-Extracted :
      (question : String) (chunks : List RetrievalCandidate)
      → Extracted chunks (create_grounded_answer k question chunks)
  unfolding create_grounded_answer
  create_grounded_answer-Extracted question chunks =
      let sel = select_lem question chunks in
      let sn = snippets_lem chunks (select_chunks k question chunks) sel.0 in
      answer_lem chunks (snippets_of k (select_chunks k question chunks)) sn.0
        (omega (arith, sn.1, sel.1))
