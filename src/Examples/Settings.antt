-- ===== src/Examples/Settings.antt =====
-- The check of the configuration in a test, where most settings are the test's own.
use rag_stack_monorepo.Prelude.{
  ◌≡◌, refl, true, false, none, some, [], ◌∷◌, arith, ◌==◌, if◌then◌else◌, string_eq,
}
use rag_stack_monorepo.Config.{
  get_database_url, get_jwt_secret, get_redis_host, get_redis_port, get_s3_endpoint, get_s3_bucket,
  get_aws_access_key_id, get_aws_secret_access_key, get_upload_max_bytes, get_cors_origins,
  get_open_ai_request_timeout_ms, get_open_ai_max_retries, get_open_ai_retry_base_delay_ms,
  get_open_ai_grounding_max_chunks, get_open_ai_temperature, is_open_ai_embeddings_enabled,
  is_open_ai_grounded_chat_enabled, ConfigTools, Env, value, refused, ◌>>=◌, ◌>>◌,
  validate_runtime_config,
}
use rag_stack_monorepo.Config.Valid.{Usable, validate_runtime_config-Usable}

abbrev config_tools : ConfigTools
config_tools = record {
  trim = λ s. s;
  size = λ _. 37;
  parse_int = λ _. some 4000;
  parse_float = λ _. some 1;
  one = 10;
  tenth = 1;
  is_yes = λ _. true;
  is_no = λ _. false;
  is_placeholder = λ _. false;
  protocol = λ _. some "http:";
  split_commas = λ s. s ∷ [];
  show = λ _. "";
}

abbrev test_env : Env
test_env name =
    if name == "NODE_ENV"
    then some "test"
    else if name == "CORS_ORIGINS"
    then some "http://localhost:3000"
    else if name == "REDIS_PORT"
    then some "4000"
    else none

-- What the check computes with.
validating : Unit {0}
unfolding ◌>>=◌ ◌>>◌ validate_runtime_config get_database_url get_jwt_secret get_redis_host
    get_redis_port get_s3_endpoint get_s3_bucket get_aws_access_key_id get_aws_secret_access_key
    get_upload_max_bytes get_cors_origins get_open_ai_request_timeout_ms get_open_ai_max_retries
    get_open_ai_retry_base_delay_ms get_open_ai_grounding_max_chunks get_open_ai_temperature
    is_open_ai_embeddings_enabled is_open_ai_grounded_chat_enabled
validating = tt

test_env_valid : validate_runtime_config config_tools test_env ≡ value tt
unfolding validating
test_env_valid = refl

validate_runtime_config-Usable_example : Usable config_tools test_env
validate_runtime_config-Usable_example =
    validate_runtime_config-Usable config_tools test_env (omega arith) test_env_valid

-- A number that is not within its bounds stops the start.
abbrev wrong_env : Env
wrong_env name = if name == "OPENAI_MAX_RETRIES" then some "4000" else test_env name

bad_settings_stop :
    validate_runtime_config config_tools wrong_env
    ≡ refused "Environment variable OPENAI_MAX_RETRIES must be an integer between  and "
unfolding validating
bad_settings_stop = refl
