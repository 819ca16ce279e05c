-- ===== src/Common/Audit/Clean.antt =====
-- What `sanitizeMetadata` of services/api/src/common/audit/audit.service.ts lets into the audit log.
use rag_stack_monorepo.Prelude.{
  ℕ, zero, suc, ◌+◌, ◌≤◌, ◌<◌, String, ◌≡◌, refl, inl, inr, true, Option, none, some, arith, leb,
  Bool-cases, string_eq, pair_eq, ap, false, append,
}
use rag_stack_monorepo.Json.{
  Json, null, boolean, number, text, array, object, Items, nil, cons, Fields, end, field, size_of,
}
use rag_stack_monorepo.Common.Audit.{
  Strings, is_redacted, shortened, sanitize, sanitize_items, sanitize_fields, sanitize_metadata,
}

-- The documented behaviour of `length` and `slice` that the bounds rest on.
pub record Lengths (k : Strings) : Type 0 where
  pub first_le : (n : ℕ) (s : String) → k.size (k.first n s) ≤ n
  pub size-append : (s t : String) → k.size (append s t) ≡ k.size s + k.size t
  pub dots : k.size "..." ≡ 3
  pub redacted : k.size "[redacted]" ≡ 10
  pub truncated : k.size "[truncated]" ≡ 11

module _ (k : Strings) where
  -- A value that stands that deep: its texts have at most 200 characters, its arrays at most 20
  -- entries, no object stands deeper than at depth 1, and a secret member is only a mark.
  unfoldable mutual
    pub Clean : ℕ → Json → Type 0
    Clean depth null = Unit
    Clean depth (boolean b) = Unit
    Clean depth (number n) = Unit
    Clean depth (text s) = k.size s ≤ 200
    Clean depth (array xs) = (size_of xs ≤ 20) × CleanItems depth xs
    Clean depth (object fs) = (depth < 2) × CleanFields depth fs

    pub CleanItems : ℕ → Items → Type 0
    CleanItems depth nil = Unit
    CleanItems depth (cons x xs) = Clean (suc depth) x × CleanItems depth xs

    pub CleanFields : ℕ → Fields → Type 0
    CleanFields depth end = Unit
    CleanFields depth (field key x rest) =
        (is_redacted k key ≡ true → x ≡ text "[redacted]")
        × (Clean (suc depth) x × CleanFields depth rest)

  shortened-le : (laws : Lengths k) (s : String) → k.size (shortened k s) ≤ 200
  unfolding shortened
  shortened-le laws s =
      ground (arith, laws.first_le 197 s, laws.size-append (k.first 197 s) "...", laws.dots)

  size_of-sanitize_items : (depth n : ℕ) (xs : Items) → size_of (sanitize_items k depth n xs) ≤ n
  unfolding sanitize_items
  size_of-sanitize_items depth zero xs = omega arith
  size_of-sanitize_items depth (suc n) nil = omega arith
  size_of-sanitize_items depth (suc n) (cons x xs) =
      omega (arith, size_of-sanitize_items depth n xs)

  module _ (laws : Lengths k) where
    mutual
      unfolding sanitize sanitize_items sanitize_fields Clean CleanItems CleanFields

      sanitize-Clean : (depth : ℕ) (x : Json) → Clean depth (sanitize k depth x)
      sanitize-Clean depth null = tt
      sanitize-Clean depth (boolean b) = tt
      sanitize-Clean depth (number n) = tt
      sanitize-Clean depth (text s) = shortened-le laws s
      sanitize-Clean depth (array xs) =
          (size_of-sanitize_items depth 20 xs, sanitize_items-CleanItems depth 20 xs)
      sanitize-Clean depth (object fs) = elim (Bool-cases (leb 2 depth)) [
        | inl t ↦ rw t (omega (arith, laws.truncated))
        | inr f ↦ rw f (ground arith, sanitize_fields-CleanFields depth fs)
      ]

      sanitize_items-CleanItems :
          (depth n : ℕ) (xs : Items) → CleanItems depth (sanitize_items k depth n xs)
      sanitize_items-CleanItems depth zero xs = tt
      sanitize_items-CleanItems depth (suc n) nil = tt
      sanitize_items-CleanItems depth (suc n) (cons x xs) =
          (sanitize-Clean (suc depth) x, sanitize_items-CleanItems depth n xs)

      sanitize_fields-CleanFields :
          (depth : ℕ) (fs : Fields) → CleanFields depth (sanitize_fields k depth fs)
      sanitize_fields-CleanFields depth end = tt
      sanitize_fields-CleanFields depth (field key x rest) =
          let tail = sanitize_fields-CleanFields depth rest in
          let value = sanitize-Clean (suc depth) x in
          elim (Bool-cases (is_redacted k key)) [
            | inl t ↦ rw t (λ _. refl, (omega (arith, laws.redacted), tail))
            | inr f ↦ rw f (λ e. absurd (cc e), (value, tail))
          ]

  pub sanitize_metadata-Clean :
      (laws : Lengths k) (metadata : Option Json) → Clean 0 (sanitize_metadata k metadata)
  unfolding sanitize_metadata Clean CleanFields
  sanitize_metadata-Clean laws none = (omega arith, tt)
  sanitize_metadata-Clean laws (some x) = sanitize-Clean laws 0 x

  unshortened : (s : String) → k.size s ≤ 200 → shortened k s ≡ s
  unfolding shortened
  unshortened s h = ground arith

  mutual
    unfolding sanitize sanitize_items sanitize_fields Clean CleanItems CleanFields

    sanitize_kept : (depth : ℕ) (x : Json) → Clean depth x → sanitize k depth x ≡ x
    sanitize_kept depth null h = refl
    sanitize_kept depth (boolean b) h = refl
    sanitize_kept depth (number n) h = refl
    sanitize_kept depth (text s) h = ap text (unshortened s h)
    sanitize_kept depth (array xs) h = ap array (sanitize_items_kept depth 20 xs h.0 h.1)
    sanitize_kept depth (object fs) h =
        let shallow : leb 2 depth ≡ false = ground (arith, h.0) in
        rw shallow (ap object (sanitize_fields_kept depth fs h.1))

    sanitize_items_kept :
        (depth n : ℕ) (xs : Items)
        → size_of xs ≤ n
        → CleanItems depth xs
        → sanitize_items k depth n xs ≡ xs
    sanitize_items_kept depth zero nil s h = refl
    sanitize_items_kept depth zero (cons x xs) s h = absurd (omega arith)
    sanitize_items_kept depth (suc n) nil s h = refl
    sanitize_items_kept depth (suc n) (cons x xs) s h =
        cc (sanitize_kept (suc depth) x h.0, sanitize_items_kept depth n xs (omega arith) h.1)

    sanitize_fields_kept :
        (depth : ℕ) (fs : Fields) → CleanFields depth fs → sanitize_fields k depth fs ≡ fs
    sanitize_fields_kept depth end h = refl
    sanitize_fields_kept depth (field key x rest) h =
        let value = sanitize_kept (suc depth) x h.1.0 in
        let tail = sanitize_fields_kept depth rest h.1.1 in
        elim (Bool-cases (is_redacted k key)) [
          | inl t ↦ rw t (cc (h.0 t, tail))
          | inr f ↦ rw f (cc (value, tail))
        ]

  -- If `length` and `slice` behave as documented, a payload that was sanitized once is not changed
  -- by sanitizing it again.
  pub sanitize_metadata_idempotent :
      (laws : Lengths k) (metadata : Option Json)
      → sanitize_metadata k (some (sanitize_metadata k metadata)) ≡ sanitize_metadata k metadata
  unfolding sanitize_metadata
  sanitize_metadata_idempotent laws metadata =
      sanitize_kept 0 (sanitize_metadata k metadata) (sanitize_metadata-Clean laws metadata)
