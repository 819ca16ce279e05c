-- ===== src/Config/Valid.antt =====
-- What `validateRuntimeConfig` of services/api/src/config/runtime-config.ts promises of the settings
-- that are read later.
use rag_stack_monorepo.Prelude.{
  ℕ, ◌*◌, ◌≤◌, String, ◌≡◌, refl, Bool, true, false, Option, none, some, List, [], ◌∷◌, arith, inl,
  inr, Bool-cases, Option-cases, All, string_eq, pair_eq,
}
use mathlib.Core.Path.{subst}
use rag_stack_monorepo.Prelude.{if◌then◌else◌, is_some}
use rag_stack_monorepo.Config.{
  origins_in, get_open_ai_api_key, get_redis_host, get_s3_bucket, get_aws_access_key_id,
  get_aws_secret_access_key, ConfigTools, Env, Setting, value, refused, ◌>>=◌, ◌>>◌, read_env,
  bounded, parse_integer_env, parse_float_env, get_required_env, get_url_env, is_web, check_secret,
  get_jwt_secret, check_origins, get_cors_origins, get_upload_max_bytes, get_redis_port,
  get_s3_endpoint, get_open_ai_request_timeout_ms, get_open_ai_max_retries,
  get_open_ai_retry_base_delay_ms, get_open_ai_grounding_max_chunks, get_open_ai_temperature,
  is_open_ai_embeddings_available, is_open_ai_grounded_chat_available,
  is_open_ai_embeddings_enabled, is_open_ai_grounded_chat_enabled, validate_runtime_config,
  get_database_url,
}

-- The setting is read without an error, and its value is as asked for.
abbrev pub Found : {A : Type 0} → Setting A → (A → Type 0) → Type 0
Found {A} m P = (a : A) × ((m ≡ value a) × P a)

abbrev pub Between : ℕ → ℕ → ℕ → Type 0
Between low high n = (low ≤ n) × (n ≤ high)

abbrev Any : {A : Type 0} → A → Type 0
Any a = Unit

-- What holds of the settings after the check.
pub record Usable (k : ConfigTools) (env : Env) : Type 0 where
  pub database_url : Found (get_database_url k env) Any
  pub jwt_secret :
      Found (get_jwt_secret k env) (λ s. (32 ≤ k.size s) × (k.is_placeholder s ≡ false))
  pub redis_port : Found (get_redis_port k env) (Between 1 65535)
  pub s3_endpoint : Found (get_s3_endpoint k env) (λ s. is_web k env s ≡ true)
  pub upload_max_bytes : Found (get_upload_max_bytes k env) (Between 1048576 52428800)
  pub cors_origins : Found (get_cors_origins k env) (All (λ o. is_web k env o ≡ true))
  pub request_timeout_ms : Found (get_open_ai_request_timeout_ms k env) (Between 1000 180000)
  pub max_retries : Found (get_open_ai_max_retries k env) (Between 0 5)
  pub retry_base_delay_ms : Found (get_open_ai_retry_base_delay_ms k env) (Between 0 5000)
  pub grounding_max_chunks : Found (get_open_ai_grounding_max_chunks k env) (Between 1 20)
  pub temperature : Found (get_open_ai_temperature k env) (Between 0 (2 * k.one))
  pub embeddings_available : Found (is_open_ai_embeddings_available k env) Any
  pub grounded_chat_available : Found (is_open_ai_grounded_chat_available k env) Any

value_inj : {A : Type 0} {a b : A} → ◌≡◌ {A = Setting A} (value a) (value b) → a ≡ b
value_inj q = ground arith

after :
    {A B : Type 0} (m : Setting A) (rest : Setting B) (b : B)
    → (m >> rest) ≡ value b
    → Found m Any × (rest ≡ value b)
unfolding ◌>>◌
after (value a) rest b h = ((a, (refl, tt)), h)
after (refused e) rest b h = absurd (ground arith)

after_bind :
    {A B : Type 0} (m : Setting A) (f : A → Setting B) (b : B)
    → (m >>= f) ≡ value b
    → (a : A) × (f a ≡ value b)
unfolding ◌>>=◌
after_bind (value a) f b h = (a, h)
after_bind (refused e) f b h = absurd (ground arith)

-- What every value of a setting satisfies, the value that was found satisfies.
found :
    {A : Type 0} (P : A → Type 0) (m : Setting A)
    → ((a : A) → m ≡ value a → P a)
    → Found m Any
    → Found m P
found P m all (a, (h, u)) = (a, (h, all a h))

bounded-Between :
    (k : ConfigTools) (env : Env) (parsed : Option ℕ) (low high : ℕ) (error : String) (n : ℕ)
    → bounded k env parsed low high error ≡ value n
    → Between low high n
unfolding bounded
bounded-Between k env none low high error n h = absurd (ground arith)
bounded-Between k env (some m) low high error n h = ground arith

module _ (k : ConfigTools) (env : Env) where
  parse_integer_env-Between :
      (name : String) (default_value low high : ℕ)
      → Between low high default_value
      → (n : ℕ) → parse_integer_env k env name default_value low high ≡ value n
      → Between low high n
  unfolding parse_integer_env
  parse_integer_env-Between name default_value low high d n h =
      elim (Option-cases (read_env k env name)) [
        | inl e ↦ ground arith
        | inr (raw, e) ↦
            bounded-Between k env (k.parse_int raw) low high _ n (rw (parse_integer_env, e) at h)
      ]

  parse_float_env-Between :
      (name : String) (default_value low high : ℕ)
      → Between low high default_value
      → (n : ℕ) → parse_float_env k env name default_value low high ≡ value n
      → Between low high n
  unfolding parse_float_env
  parse_float_env-Between name default_value low high d n h =
      elim (Option-cases (read_env k env name)) [
        | inl e ↦ ground arith
        | inr (raw, e) ↦
            bounded-Between k env (k.parse_float raw) low high _ n (rw (parse_float_env, e) at h)
      ]

  check_secret_lem :
      (s t : String)
      → check_secret k env s ≡ value t
      → (32 ≤ k.size t) × (k.is_placeholder t ≡ false)
  unfolding check_secret
  check_secret_lem s t h = ground arith

  get_jwt_secret_lem :
      (s : String) → get_jwt_secret k env ≡ value s → (32 ≤ k.size s) × (k.is_placeholder s ≡ false)
  unfolding get_jwt_secret
  get_jwt_secret_lem s h =
      let r = after_bind _ (check_secret k env) s h in check_secret_lem r.0 s r.1

  get_url_env_lem : (name d s : String) → get_url_env k env name d ≡ value s → is_web k env s ≡ true
  unfolding get_url_env
  get_url_env_lem name d s h =
      let r = after_bind (get_required_env k env name d) _ s h in
      elim (Bool-cases (is_web k env r.0)) [
        | inl e ↦ ground (arith, r.1)
        | inr e ↦ absurd (ground (arith, r.1))
      ]

  check_origins_lem :
      (os : List String) (u : Unit)
      → check_origins k env os ≡ value u
      → All (λ o. is_web k env o ≡ true) os
  unfolding check_origins
  check_origins_lem [] u h = tt
  check_origins_lem (o ∷ os) u h = elim (Bool-cases (is_web k env o)) [
    | inl e ↦ (e, check_origins_lem os u (rw (check_origins, e) at h))
    | inr e ↦ absurd (ground arith)
  ]

  get_cors_origins_lem :
      (os : List String) → get_cors_origins k env ≡ value os → All (λ o. is_web k env o ≡ true) os
  unfolding get_cors_origins
  get_cors_origins_lem os h = elim (Option-cases (read_env k env "CORS_ORIGINS")) [
    | inl e ↦
        subst (All (λ o. is_web k env o ≡ true)) (value_inj (rw (get_cors_origins, e) at h)) tt
    | inr (raw, e) ↦
        let r =
          after (check_origins k env (origins_in k env raw)) _ os (rw (get_cors_origins, e) at h) in
        subst (All (λ o. is_web k env o ≡ true)) (value_inj r.1)
          (check_origins_lem (origins_in k env raw) r.0.0 r.0.1.0)
  ]

  -- Without the key, the answer is no; with it, it is that of the switch.
  available_lem :
      (has_key : Bool) (m : Setting Bool)
      → Found m Any
      → Found (if has_key then m else value false) Any
  available_lem true m h = h
  available_lem false m h = (false, (refl, tt))

  get_redis_port_lem : (n : ℕ) → get_redis_port k env ≡ value n → Between 1 65535 n
  unfolding get_redis_port
  get_redis_port_lem =
      parse_integer_env-Between "REDIS_PORT" 6379 1 65535 (omega arith, omega arith)

  get_upload_max_bytes_lem :
      (n : ℕ) → get_upload_max_bytes k env ≡ value n → Between 1048576 52428800 n
  unfolding get_upload_max_bytes
  get_upload_max_bytes_lem =
      parse_integer_env-Between "UPLOAD_MAX_BYTES" (10 * 1024 * 1024) 1048576 52428800
        (omega arith, omega arith)

  get_open_ai_request_timeout_ms_lem :
      (n : ℕ) → get_open_ai_request_timeout_ms k env ≡ value n → Between 1000 180000 n
  unfolding get_open_ai_request_timeout_ms
  get_open_ai_request_timeout_ms_lem =
      parse_integer_env-Between "OPENAI_REQUEST_TIMEOUT_MS" 30000 1000 180000
        (omega arith, omega arith)

  get_open_ai_max_retries_lem : (n : ℕ) → get_open_ai_max_retries k env ≡ value n → Between 0 5 n
  unfolding get_open_ai_max_retries
  get_open_ai_max_retries_lem =
      parse_integer_env-Between "OPENAI_MAX_RETRIES" 2 0 5 (omega arith, omega arith)

  get_open_ai_retry_base_delay_ms_lem :
      (n : ℕ) → get_open_ai_retry_base_delay_ms k env ≡ value n → Between 0 5000 n
  unfolding get_open_ai_retry_base_delay_ms
  get_open_ai_retry_base_delay_ms_lem =
      parse_integer_env-Between "OPENAI_RETRY_BASE_DELAY_MS" 250 0 5000 (omega arith, omega arith)

  get_open_ai_grounding_max_chunks_lem :
      (n : ℕ) → get_open_ai_grounding_max_chunks k env ≡ value n → Between 1 20 n
  unfolding get_open_ai_grounding_max_chunks
  get_open_ai_grounding_max_chunks_lem =
      parse_integer_env-Between "OPENAI_GROUNDED_CHAT_MAX_CHUNKS" 6 1 20 (omega arith, omega arith)

  get_open_ai_temperature_lem :
      k.tenth ≤ 2 * k.one
      → (n : ℕ) → get_open_ai_temperature k env ≡ value n
      → Between 0 (2 * k.one) n
  unfolding get_open_ai_temperature
  get_open_ai_temperature_lem small =
      parse_float_env-Between "OPENAI_TEMPERATURE" k.tenth 0 (2 * k.one) (omega arith, small)

  get_s3_endpoint_lem : (s : String) → get_s3_endpoint k env ≡ value s → is_web k env s ≡ true
  unfolding get_s3_endpoint
  get_s3_endpoint_lem = get_url_env_lem "S3_ENDPOINT" "http://localhost:9000"

  is_open_ai_embeddings_available_lem :
      Found (is_open_ai_embeddings_enabled k env) Any
      → Found (is_open_ai_embeddings_available k env) Any
  unfolding is_open_ai_embeddings_available
  is_open_ai_embeddings_available_lem =
      available_lem (is_some (get_open_ai_api_key k env)) (is_open_ai_embeddings_enabled k env)

  is_open_ai_grounded_chat_available_lem :
      Found (is_open_ai_grounded_chat_enabled k env) Any
      → Found (is_open_ai_grounded_chat_available k env) Any
  unfolding is_open_ai_grounded_chat_available
  is_open_ai_grounded_chat_available_lem =
      available_lem (is_some (get_open_ai_api_key k env)) (is_open_ai_grounded_chat_enabled k env)

  -- If 0.1 is at most 2 in the unit of numbers, and the check of the configuration at the start
  -- passes, then each of these settings is read without an error: the secret of the tokens has 32
  -- characters at least and is no placeholder, the addresses of the object store and of the origins
  -- are http or https, and the port, the size of an upload, the timeout, the retries and their delay,
  -- the chunks of an answer and the temperature are within their bounds.
  pub validate_runtime_config-Usable :
      k.tenth ≤ 2 * k.one → validate_runtime_config k env ≡ value tt → Usable k env
  unfolding validate_runtime_config
  validate_runtime_config-Usable small h =
      let database = after (get_database_url k env) _ tt h in
      let secret = after (get_jwt_secret k env) _ tt database.1 in
      let host = after (get_redis_host k env) _ tt secret.1 in
      let port = after (get_redis_port k env) _ tt host.1 in
      let endpoint = after (get_s3_endpoint k env) _ tt port.1 in
      let bucket = after (get_s3_bucket k env) _ tt endpoint.1 in
      let key_id = after (get_aws_access_key_id k env) _ tt bucket.1 in
      let access_key = after (get_aws_secret_access_key k env) _ tt key_id.1 in
      let bytes = after (get_upload_max_bytes k env) _ tt access_key.1 in
      let origins = after (get_cors_origins k env) _ tt bytes.1 in
      let timeout = after (get_open_ai_request_timeout_ms k env) _ tt origins.1 in
      let retries = after (get_open_ai_max_retries k env) _ tt timeout.1 in
      let delay = after (get_open_ai_retry_base_delay_ms k env) _ tt retries.1 in
      let chunks = after (get_open_ai_grounding_max_chunks k env) _ tt delay.1 in
      let temp = after (get_open_ai_temperature k env) _ tt chunks.1 in
      let embeddings = after (is_open_ai_embeddings_enabled k env) _ tt temp.1 in
      let chat = after (is_open_ai_grounded_chat_enabled k env) _ tt embeddings.1 in
      record {
        database_url = database.0;
        jwt_secret = found _ _ get_jwt_secret_lem secret.0;
        redis_port = found _ _ get_redis_port_lem port.0;
        s3_endpoint = found _ _ get_s3_endpoint_lem endpoint.0;
        upload_max_bytes = found _ _ get_upload_max_bytes_lem bytes.0;
        cors_origins = found _ _ get_cors_origins_lem origins.0;
        request_timeout_ms = found _ _ get_open_ai_request_timeout_ms_lem timeout.0;
        max_retries = found _ _ get_open_ai_max_retries_lem retries.0;
        retry_base_delay_ms = found _ _ get_open_ai_retry_base_delay_ms_lem delay.0;
        grounding_max_chunks = found _ _ get_open_ai_grounding_max_chunks_lem chunks.0;
        temperature = found _ _ (get_open_ai_temperature_lem small) temp.0;
        embeddings_available = is_open_ai_embeddings_available_lem embeddings.0;
        grounded_chat_available = is_open_ai_grounded_chat_available_lem chat.0;
      }
