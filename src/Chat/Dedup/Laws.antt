-- ===== src/Chat/Dedup/Laws.antt =====
-- The selection and the marks of `suppressDuplicates` of services/api/src/chat/retrieval.service.ts.
use mathlib.Core.List.{append_assoc, append-nil}
use rag_stack_monorepo.Prelude.{
  map, filter, Bool, sym, ℕ, suc, String, ◌≡◌, refl, ◌∙◌, ◌⊎◌, inl, inr, true, false, Option, none,
  some, List, [], ◌∷◌, ◌++◌, arith, Option-cases, is_some, string_eq, pair_eq, length, In, All, ap,
  All-append, find, Pairwise, Ranked, Pairwise-snoc, Ranked-snoc, All-map, find-eq-none,
  find-eq-some, In-append_iff,
}
use rag_stack_monorepo.Chat.{RetrievalCandidate, Texts}
use rag_stack_monorepo.Chat.Dedup.{
  dedup_reason, mark, suppress, suppress_duplicates, near_duplicate, has_unique_phrase,
  has_unique_structure,
}

module _ (t : Texts) where
  -- The later candidate is no duplicate of the earlier one.
  abbrev pub Apart : RetrievalCandidate → RetrievalCandidate → Type 0
  Apart earlier later = dedup_reason t earlier later ≡ none

  abbrev pub HasRank : ℕ → RetrievalCandidate → Type 0
  HasRank n c = c.debug.rank_after_dedup ≡ some n

  -- A marked candidate is in the selection, without a reason against it, or it has no rank, and
  -- the reason that it carries is the one for which it duplicates a candidate of the selection.
  abbrev pub Accounted : List RetrievalCandidate → RetrievalCandidate → Type 0
  Accounted selected c =
      (In c selected × (c.debug.dedup_reason ≡ none))
      ⊎ ((c.debug.rank_after_dedup ≡ none)
          × ((e : RetrievalCandidate) × (In e selected
                × ((dedup_reason t e c ≡ c.debug.dedup_reason)
                    × (is_some c.debug.dedup_reason ≡ true)))))

  abbrev Good : List RetrievalCandidate → Type 0
  Good selected = Pairwise Apart selected × Ranked HasRank 1 selected

  is_some-eq-false : (o : Option String) → is_some o ≡ false → o ≡ none
  is_some-eq-false none h = refl
  is_some-eq-false (some s) h = absurd (ground arith)

  -- The marks are not read by the test.
  dedup_reason-mark :
      (a c : RetrievalCandidate) (rank : Option ℕ) (reason : Option String)
      → dedup_reason t a (mark c rank reason) ≡ dedup_reason t a c
  unfolding dedup_reason mark near_duplicate has_unique_phrase has_unique_structure
  dedup_reason-mark a c rank reason = refl

  -- The candidate as it joins the selection, and the selection with it.
  abbrev join : List RetrievalCandidate → RetrievalCandidate → RetrievalCandidate
  join selected c = mark c (some (suc (length selected))) none

  abbrev joined : List RetrievalCandidate → RetrievalCandidate → List RetrievalCandidate
  joined selected c = selected ++ (join selected c ∷ [])

  abbrev duplicate_of : List RetrievalCandidate → RetrievalCandidate → Option RetrievalCandidate
  duplicate_of selected c = find (λ existing. is_some (dedup_reason t existing c)) selected

  suppress-kept :
      (selected cs : List RetrievalCandidate) (c : RetrievalCandidate)
      → duplicate_of selected c ≡ none
      → suppress t selected (c ∷ cs) ≡ (
        (suppress t (joined selected c) cs).0,
        join selected c ∷ (suppress t (joined selected c) cs).1,
      )
  unfolding suppress
  suppress-kept selected cs c n = rw (suppress, n) refl

  suppress-dropped :
      (selected cs : List RetrievalCandidate) (c d : RetrievalCandidate)
      → duplicate_of selected c ≡ some d
      → suppress t selected (c ∷ cs) ≡ (
        (suppress t selected cs).0,
        mark c none (dedup_reason t d c) ∷ (suppress t selected cs).1,
      )
  unfolding suppress
  suppress-dropped selected cs c d f = rw (suppress, f) refl

  selected_stay :
      (selected cs : List RetrievalCandidate) (a : RetrievalCandidate)
      → In a selected
      → In a (suppress t selected cs).0
  unfolding suppress
  selected_stay selected [] a m = m
  selected_stay selected (c ∷ cs) a m = elim (Option-cases (duplicate_of selected c)) [
    | inl n ↦
        rw (suppress-kept selected cs c n)
          (selected_stay _ cs a ((In-append_iff a selected (join selected c ∷ [])).1 (inl m)))
    | inr (d, f) ↦ rw (suppress-dropped selected cs c d f) (selected_stay selected cs a m)
  ]

  extend :
      (selected : List RetrievalCandidate) (c : RetrievalCandidate)
      → duplicate_of selected c ≡ none
      → Good selected
      → Good (joined selected c)
  extend selected c n good = (
    Pairwise-snoc Apart selected (join selected c) good.0 (
        All-map
          (λ a h.
            dedup_reason-mark a c (some (suc (length selected))) none
            ∙ is_some-eq-false (dedup_reason t a c) h)
          selected (find-eq-none (λ existing. is_some (dedup_reason t existing c)) selected n)),
    Ranked-snoc HasRank 1 selected (join selected c) good.1 (unfold mark in ap some (omega arith)),
  )

  suppress-Good :
      (selected cs : List RetrievalCandidate) → Good selected → Good (suppress t selected cs).0
  unfolding suppress
  suppress-Good selected [] good = good
  suppress-Good selected (c ∷ cs) good = elim (Option-cases (duplicate_of selected c)) [
    | inl n ↦ rw (suppress-kept selected cs c n) (suppress-Good _ cs (extend selected c n good))
    | inr (d, f) ↦ rw (suppress-dropped selected cs c d f) (suppress-Good selected cs good)
  ]

  -- What marks do not change holds of the selection if it holds of the candidates.
  suppress-All :
      (P : RetrievalCandidate → Type 0)
      → ((c : RetrievalCandidate) (rank : Option ℕ) → P c → P (mark c rank none))
      → (selected cs : List RetrievalCandidate) → All P selected
      → All P cs
      → All P (suppress t selected cs).0
  unfolding suppress
  suppress-All P stable selected [] h g = h
  suppress-All P stable selected (c ∷ cs) h g = elim (Option-cases (duplicate_of selected c)) [
    | inl n ↦ rw (suppress-kept selected cs c n) (
        suppress-All P stable _ cs
          (All-append P selected (join selected c ∷ []) h
            (stable c (some (suc (length selected))) g.0, tt))
          g.1)
    | inr (d, f) ↦ rw (suppress-dropped selected cs c d f) (suppress-All P stable selected cs h g.1)
  ]

  pub suppress_duplicates-All :
      (P : RetrievalCandidate → Type 0)
      → ((c : RetrievalCandidate) (rank : Option ℕ) → P c → P (mark c rank none))
      → (candidates : List RetrievalCandidate) → All P candidates
      → All P (suppress_duplicates t candidates).0
  unfolding suppress_duplicates
  suppress_duplicates-All P stable candidates h = suppress-All P stable [] candidates tt h

  suppress-Accounted :
      (selected cs : List RetrievalCandidate)
      → All (Accounted (suppress t selected cs).0) (suppress t selected cs).1
  unfolding suppress mark
  suppress-Accounted selected [] = tt
  suppress-Accounted selected (c ∷ cs) = elim (Option-cases (duplicate_of selected c)) [
    | inl n ↦ rw (suppress-kept selected cs c n) (
      inl (
        selected_stay _ cs (join selected c) ((In-append_iff _ selected _).1 (inr (inl refl))),
        refl,
      ),
      suppress-Accounted _ cs,
    )
    | inr (d, f) ↦
        let (m, r) = find-eq-some _ selected d f in
        rw (suppress-dropped selected cs c d f) (
          inr (
            refl,
            (
              d,
              (selected_stay selected cs d m, (dedup_reason-mark d c none (dedup_reason t d c), r)),
            ),
          ),
          suppress-Accounted selected cs,
        )
  ]

  -- A candidate without what the suppression writes into it.
  abbrev pub unmarked : RetrievalCandidate → RetrievalCandidate
  unmarked c = record c { debug = record c.debug { rank_after_dedup = none; dedup_reason = none } }

  abbrev pub has_rank : RetrievalCandidate → Bool
  has_rank c = is_some c.debug.rank_after_dedup

  -- The marked candidates are the given ones, in their order.
  suppress-unmarked :
      (selected cs : List RetrievalCandidate)
      → map unmarked (suppress t selected cs).1 ≡ map unmarked cs
  unfolding suppress mark
  suppress-unmarked selected [] = refl
  suppress-unmarked selected (c ∷ cs) = elim (Option-cases (duplicate_of selected c)) [
    | inl n ↦
        rw (suppress-kept selected cs c n)
          (ap (λ l. unmarked c ∷ l) (suppress-unmarked (joined selected c) cs))
    | inr (d, f) ↦
        rw (suppress-dropped selected cs c d f)
          (ap (λ l. unmarked c ∷ l) (suppress-unmarked selected cs))
  ]

  -- The selection grows by the marked candidates that have a rank.
  suppress-ranked :
      (selected cs : List RetrievalCandidate)
      → (suppress t selected cs).0 ≡ selected ++ filter has_rank (suppress t selected cs).1
  unfolding suppress mark
  suppress-ranked selected [] = sym (append-nil selected)
  suppress-ranked selected (c ∷ cs) = elim (Option-cases (duplicate_of selected c)) [
    | inl n ↦ rw (suppress-kept selected cs c n) (
        suppress-ranked (joined selected c) cs
        ∙ append_assoc selected (join selected c ∷ [])
            (filter has_rank (suppress t (joined selected c) cs).1))
    | inr (d, f) ↦ rw (suppress-dropped selected cs c d f) (suppress-ranked selected cs)
  ]

  -- No candidate that the suppression selects is a duplicate, by chunk, by checksum or by overlap,
  -- of one that it selected before, and the selected candidates carry the ranks 1, 2, 3 and so on.
  -- The candidates that it returns are the given ones, all of them and in their order, but for the
  -- marks; the selection is those of them that have a rank; and each of the others carries the
  -- reason for which it duplicates a candidate of the selection.
  pub suppress_duplicates_lem :
      (candidates : List RetrievalCandidate)
      → (Pairwise Apart (suppress_duplicates t candidates).0
          × Ranked HasRank 1 (suppress_duplicates t candidates).0)
        × ((map unmarked (suppress_duplicates t candidates).1 ≡ map unmarked candidates)
            × (((suppress_duplicates t candidates).0
                  ≡ filter has_rank (suppress_duplicates t candidates).1)
                × All
                    (Accounted (suppress_duplicates t candidates).0)
                    (suppress_duplicates t candidates).1))
  unfolding suppress_duplicates
  suppress_duplicates_lem candidates = (
    suppress-Good [] candidates (tt, tt),
    (
      suppress-unmarked [] candidates,
      (suppress-ranked [] candidates, suppress-Accounted [] candidates),
    ),
  )
