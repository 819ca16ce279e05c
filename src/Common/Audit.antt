-- ===== src/Common/Audit.antt =====
-- services/api/src/common/audit/audit.service.ts: `sanitizeMetadata`, which every payload of the audit
-- log goes through. A member that is undefined is null here, which is what the code makes of it.
pub mod Clean
use rag_stack_monorepo.Prelude.{
  ℕ, zero, suc, String, Bool, true, false, Option, none, some, List, [], ◌∷◌, ltb, leb,
  if◌then◌else◌, append,
}
use rag_stack_monorepo.Chat.{contains_string}
use rag_stack_monorepo.Json.{
  Json, null, boolean, number, text, array, object, Items, nil, cons, Fields, end, field,
}

-- The functions of the language on strings.
pub record Strings : Type 0 where
  -- `length`
  pub size : String → ℕ
  -- `slice(0, n)`
  pub first : ℕ → String → String
  pub to_lower_case : String → String

abbrev pub redacted_keys : List String
redacted_keys =
    "password" ∷ "passwordhash" ∷ "token" ∷ "accesstoken" ∷ "refreshtoken" ∷ "secret"
    ∷ "authorization" ∷ "content" ∷ []

module _ (k : Strings) where
  abbrev pub is_redacted : String → Bool
  is_redacted key = contains_string redacted_keys (k.to_lower_case key)

  unfoldable pub shortened : String → String
  shortened s = if ltb 200 (k.size s) then append (k.first 197 s) "..." else s

  unfoldable mutual
    unfolding shortened

    pub sanitize : ℕ → Json → Json
    sanitize depth null = null
    sanitize depth (boolean b) = boolean b
    sanitize depth (number n) = number n
    sanitize depth (text s) = text (shortened s)
    sanitize depth (array xs) = array (sanitize_items depth 20 xs)
    sanitize depth (object fs) =
        let members = object (sanitize_fields depth fs) in
        if leb 2 depth then text "[truncated]" else members

    -- The first entries, no more than a number of them.
    pub sanitize_items : ℕ → ℕ → Items → Items
    sanitize_items depth zero xs = nil
    sanitize_items depth (suc n) nil = nil
    sanitize_items depth (suc n) (cons x xs) =
        cons (sanitize (suc depth) x) (sanitize_items depth n xs)

    pub sanitize_fields : ℕ → Fields → Fields
    sanitize_fields depth end = end
    sanitize_fields depth (field key x rest) =
        let value = sanitize (suc depth) x in
        field key (if is_redacted key then text "[redacted]" else value)
          (sanitize_fields depth rest)

  unfoldable pub sanitize_metadata : Option Json → Json
  unfolding sanitize
  sanitize_metadata none = object end
  sanitize_metadata (some metadata) = sanitize 0 metadata
