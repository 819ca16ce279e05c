-- ===== src/Examples/Common.antt =====
-- The audit payload and the metrics, on small inputs.
use rag_stack_monorepo.Prelude.{
  ◌≡◌, refl, some, [], ◌∷◌, arith, leb, if◌then◌else◌, string_eq, Bool, Bool-cases, leb→le, inl,
  inr,
}
use rag_stack_monorepo.Json.{Json, null, number, text, array, object, nil, cons, end, field}
use rag_stack_monorepo.Common.Audit.{Strings, sanitize_metadata}
use rag_stack_monorepo.Common.Audit.Clean.{Lengths, Clean, sanitize_metadata_idempotent}
use rag_stack_monorepo.Common.Metrics.{Metrics, record_duration, to_histogram_stats}
use rag_stack_monorepo.Common.Metrics.Samples.{
  Few, Describes, record_duration-Few, to_histogram_stats-Describes,
}
use Prim.Native.String.{len}
use package.text.Mathlib.TextPositions.{len-append}

-- Lengths in bytes; a text that is too long is cut to nothing.
abbrev bytes : Strings
bytes = record {
  size = len;
  first = λ n s. if leb (len s) n then s else "";
  to_lower_case = λ s. s;
}

bytes-Lengths : Lengths bytes
bytes-Lengths = record {
  first_le = λ n s. elim (Bool-cases (leb (len s) n)) [
    | inl e ↦ rw e (omega (arith, leb→le (len s) n e))
    | inr e ↦ rw e (omega arith)
  ];
  size-append = λ s t. len-append s t;
  dots = refl;
  redacted = refl;
  truncated = refl;
}

-- A login with its password, and members that lie too deep.
abbrev login_payload : Json
login_payload = object (
    field "password" (text "hunter2") (
      field "attempts" (array (cons (number 1) (cons null nil)))
        (field "client" (object (field "os" (object end) end)) end)))

sanitize_metadata_idempotent_example :
    sanitize_metadata bytes (some (sanitize_metadata bytes (some login_payload)))
    ≡ sanitize_metadata bytes (some login_payload)
sanitize_metadata_idempotent_example =
    sanitize_metadata_idempotent bytes bytes-Lengths (some login_payload)

-- The secret is gone, and so is the object below the first level.
login_sanitized :
    sanitize_metadata bytes (some login_payload)
    ≡ object (
        field "password" (text "[redacted]") (
          field "attempts"
            (array (cons (number 1) (cons null nil)))
            (field "client" (object (field "os" (text "[truncated]") end)) end)))
unfolding sanitize_metadata
login_sanitized = refl

abbrev asked_once : Metrics
asked_once = record { counters = []; histograms = ("chat.ask", 120 ∷ []) ∷ [] }

asked_once-Few : Few asked_once
asked_once-Few = (omega arith, tt)

record_duration-Few_example :
    Few (record_duration (λ _ _. Bool.false) "chat.ask" (some 80) [] asked_once)
record_duration-Few_example =
    record_duration-Few (λ _ _. Bool.false) "chat.ask" (some 80) [] asked_once asked_once-Few

to_histogram_stats-Describes_example :
    Describes (30 ∷ 10 ∷ 20 ∷ []) (to_histogram_stats (30 ∷ 10 ∷ 20 ∷ []))
to_histogram_stats-Describes_example =
    to_histogram_stats-Describes (30 ∷ 10 ∷ 20 ∷ []) (omega arith)
