-- ===== src/Examples/Sessions.antt =====
-- Refreshing and logging out.
use rag_stack_monorepo.Prelude.{
  ◌≡◌, refl, ◌≢◌, none, some, ◌==◌, if◌then◌else◌, string_eq, pair_eq, String, true,
}
use rag_stack_monorepo.Exec.{err}
use rag_stack_monorepo.Examples.{running, world, true}
use rag_stack_monorepo.Schema.{UserStatus, Db}
use rag_stack_monorepo.Prisma.Lists.{list_prisma}
use rag_stack_monorepo.Auth.{
  Credentials, Payload, TokenPair, SafeUser, refresh, logout, find_session, session_ok, rotate,
  revoke, issue_token_pair, refresh_claims, issued, new_session, refresh_payload,
  resolve_token_expiration, invalid_token,
}
use rag_stack_monorepo.Auth.Sessions.{refresh_once, logout_ends_sessions}

abbrev claims : Payload
claims = record {
  email = some "ann@x";
  sub = some "ann";
  token_type = some "refresh";
  session_id = some "s1";
}

-- One token is known; what is signed is recognised by nobody.
abbrev credentials : Credentials
credentials = record {
  normalize_email = λ e. e;
  commits = true;
  bcrypt_compare = λ pass hash. pass == hash;
  bcrypt_hash = λ salt pass. pass;
  sign = λ now ttl payload. "signed";
  verify = λ now token. if token == "token" then some claims else none;
  decode_exp = λ token. some 90;
  hash_token = λ token. token;
  jwt_refresh_ttl = "30d";
}

refreshing : Unit {0}
unfolding running refresh logout find_session session_ok rotate revoke issue_token_pair
    refresh_claims issued new_session refresh_payload resolve_token_expiration
refreshing = tt

abbrev answer : TokenPair × SafeUser
answer = (
  record { access_token = "signed"; refresh_token = "signed" },
  record { id = "ann"; email = "ann@x"; status = UserStatus.active },
)

abbrev refreshed : Db list_prisma
refreshed = (refresh credentials list_prisma 10 "s2" "token" world).1

refresh_once_example :
    (refresh credentials list_prisma 20 "s3" "token" refreshed).0 ≡ err invalid_token
unfolding refreshing
refresh_once_example =
    refresh_once credentials list_prisma 10 20 "s2" "s3" "token" world refreshed {r = answer} refl
      (λ q h. h) refl

abbrev logged_out : Db list_prisma
logged_out = (logout credentials list_prisma 8 "bob" world).1

logout_ends_sessions_example : ◌≢◌ {A = String} "ann" "bob"
unfolding refreshing
logout_ends_sessions_example =
    logout_ends_sessions credentials list_prisma 8 10 "bob" "s2" "token" world
      (refresh credentials list_prisma 10 "s2" "token" logged_out).1 answer refl
