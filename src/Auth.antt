-- ===== src/Auth.antt =====
-- services/api/src/auth: AuthService and JwtStrategy. The password hash, the token library and the
-- clock are not part of the repository: they are the fields of `Credentials` and the arguments
-- `now`, `session_id` and `salt`.
pub mod Sessions
use rag_stack_monorepo.Prelude.{
  ℕ, ◌*◌, String, refl, Bool, true, false, not, ◌&&◌, Option, none, some, arith, ◌==◌, eq_iff,
  eq_refl, ltb, eqb, if◌then◌else◌, is_some, truthy, string_eq, pair_eq,
}
use rag_stack_monorepo.Exec.{
  HttpError, unauthorized, conflict, fault, Exec, pure, gets, require, transaction, modify, guard,
  ◌>>=◌, ◌>>◌,
}
use rag_stack_monorepo.Prisma.{Prisma, find_first}
use rag_stack_monorepo.Schema.{Db, User, UserStatus, RefreshSession}

-- The claims of a token, as JWT decoding gives them.
pub record Payload : Type 0 where
  pub email : Option String
  pub sub : Option String
  pub token_type : Option String
  pub session_id : Option String

-- bcryptjs, @nestjs/jwt and node:crypto as the service uses them.
pub record Credentials : Type 0 where
  -- `trim().toLowerCase()`
  pub normalize_email : String → String
  pub bcrypt_compare : String → String → Bool
  pub bcrypt_hash : String → String → String
  -- sign at a time, with `expiresIn` if it is given
  pub sign : ℕ → Option String → Payload → String
  -- verifyAsync at a time: `none` if it is rejected
  pub verify : ℕ → String → Option Payload
  -- decode(token)?.exp, in seconds
  pub decode_exp : String → Option ℕ
  -- SHA-256, in hexadecimal
  pub hash_token : String → String
  pub jwt_refresh_ttl : String
  -- whether the transaction of `refresh` commits
  pub commits : Bool

-- A user without the password hash.
pub record SafeUser : Type 0 where
  pub id : String
  pub email : String
  pub status : UserStatus

pub record TokenPair : Type 0 where
  pub access_token : String
  pub refresh_token : String

abbrev pub safe : String → User → SafeUser
safe id u = record { id = id; email = u.email; status = u.status }

abbrev pub is_active_user : UserStatus → Bool
is_active_user UserStatus.active = true
is_active_user UserStatus.disabled = false

abbrev pub invalid_token : HttpError
invalid_token = unauthorized "Invalid refresh token"

unfoldable pub refresh_payload : String → String → String → Payload
refresh_payload id email session_id = record {
  email = some email;
  sub = some id;
  token_type = some "refresh";
  session_id = some session_id;
}

-- `payload.tokenType !== 'refresh' || !payload.sessionId || !payload.sub`
abbrev pub is_refresh : Option String → Bool
is_refresh none = false
is_refresh (some t) = t == "refresh"

unfoldable pub refresh_claims : Payload → Option (String × String)
refresh_claims payload =
    if is_refresh payload.token_type
    then elim (truthy payload.session_id) [
      | none ↦ none
      | some session_id ↦ elim (truthy payload.sub) [
        | none ↦ none
        | some sub ↦ some (session_id, sub)
      ]
    ]
    else none

unfoldable pub revoke : ℕ → RefreshSession → RefreshSession
revoke now session = record session { revoked_at = some now; last_used_at = some now }

-- the sessions of the user that are not revoked yet
abbrev pub open_session : String → String → RefreshSession → Bool
open_session user_id _ s = s.user_id == user_id && not (is_some s.revoked_at)

module _ (c : Credentials) where
  -- `!decoded?.exp`: a missing and a zero expiry are refused; seconds become milliseconds
  unfoldable pub resolve_token_expiration : String → Option ℕ
  resolve_token_expiration token = elim (c.decode_exp token) [
    | none ↦ none
    | some e ↦ if eqb e 0 then none else some (e * 1000)
  ]

  -- The refresh token that `issueTokenPair` signs.
  unfoldable pub issued : ℕ → String → String → String → String
  unfolding refresh_payload
  issued now session_id id email =
      c.sign now (some c.jwt_refresh_ttl) (refresh_payload id email session_id)

  unfoldable pub new_session : String → String → ℕ → RefreshSession
  new_session user_id token expires_at = record {
    user_id = user_id;
    token_hash = c.hash_token token;
    expires_at = expires_at;
    revoked_at = none;
    last_used_at = none;
  }

  -- The conditions on the session and its user under which `refresh` goes on.
  unfoldable pub session_ok : ℕ → String → String → RefreshSession → User → Bool
  session_ok now sub token session user =
      session.user_id == sub
      && (is_active_user user.status
          && (not (is_some session.revoked_at)
              && (ltb now session.expires_at && session.token_hash == c.hash_token token)))

module _ (c : Credentials) (p : Prisma) where
  abbrev find_by_email : String → Db p → Option (String × User)
  find_by_email email db = find_first p (λ _. 0) (λ _ u. u.email == email) db.users

  check_password : String → Option (String × User) → Option SafeUser
  check_password pass none = none
  check_password pass (some (id, u)) =
      if is_active_user u.status && c.bcrypt_compare pass u.password_hash
      then some (safe id u)
      else none

  unfoldable pub validate_user : String → String → Exec (Db p) (Option SafeUser)
  unfolding check_password
  validate_user email pass =
      gets (λ db. check_password pass (find_by_email (c.normalize_email email) db))

  unfoldable pub issue_token_pair : ℕ → String → String → String → Exec (Db p) TokenPair
  unfolding resolve_token_expiration issued new_session
  issue_token_pair now session_id id email = do
    expires_at ←
        require (unauthorized "Invalid token expiry")
          (resolve_token_expiration c (issued c now session_id id email))
    modify (λ db. record db {
      sessions =
          p.put session_id (new_session c id (issued c now session_id id email) expires_at)
            db.sessions;
    })
    pure (record {
      access_token = c.sign now none (record {
        email = some email;
        sub = some id;
        token_type = some "access";
        session_id = none;
      });
      refresh_token = issued c now session_id id email;
    })

  unfoldable pub login : ℕ → String → String → String → Exec (Db p) (TokenPair × SafeUser)
  login now session_id email password = do
    found ← validate_user email password
    user ← require (unauthorized "Invalid credentials") found
    pair ← issue_token_pair now session_id user.id user.email
    pure (pair, user)

  unfoldable pub find_session : ℕ → String → Exec (Db p) ((String × String) × RefreshSession)
  unfolding refresh_claims
  find_session now token = do
    payload ← require invalid_token (c.verify now token)
    claims ← require invalid_token (refresh_claims payload)
    found ← gets (λ db. p.find_unique claims.0 db.sessions)
    session ← require invalid_token found
    pure (claims, session)

  unfoldable pub rotate :
      ℕ → String → String → RefreshSession → String → String → Exec (Db p) TokenPair
  unfolding revoke
  rotate now session_id old session id email = do
    modify (λ db. record db { sessions = p.put old (revoke now session) db.sessions })
    issue_token_pair now session_id id email

  -- The session row refers to its user by a foreign key, so the user is there.
  unfoldable pub refresh : ℕ → String → String → Exec (Db p) (TokenPair × SafeUser)
  refresh now session_id token = do
    found ← find_session now token
    row ← gets (λ db. p.find_unique found.1.user_id db.users)
    user ← require fault row
    guard (session_ok c now found.0.1 token found.1 user) invalid_token
    pair ←
        transaction c.commits (rotate now session_id found.0.0 found.1 found.1.user_id user.email)
    pure (pair, safe found.1.user_id user)

  unfoldable pub register : String → String → String → String → Exec (Db p) SafeUser
  register id salt email password = do
    existing ← gets (find_by_email (c.normalize_email email))
    guard (not (is_some existing)) (conflict "Email already in use")
    let user : User = record {
      email = c.normalize_email email;
      password_hash = c.bcrypt_hash salt password;
      status = UserStatus.active;
    }
    modify (λ db. record db { users = p.put id user db.users })
    pure (safe id user)

  unfoldable pub get_user_by_id : String → Exec (Db p) SafeUser
  get_user_by_id id = do
    row ← gets (λ db. p.find_unique id db.users)
    user ← require (unauthorized "User not found") row
    pure (safe id user)

  unfoldable pub logout : ℕ → String → Exec (Db p) Unit
  unfolding revoke
  logout now user_id =
      modify (λ db. record db {
        sessions = p.update_many (open_session user_id) (revoke now) db.sessions;
      })

  -- JwtStrategy.validate, on the claims of an access token that the library has verified
  unfoldable pub validate_access : Payload → Exec (Db p) (String × User)
  validate_access payload = do
    sub ← require (unauthorized "Unauthorized") (
        if (elim payload.token_type [ none ↦ false | some t ↦ t == "access" ])
        then truthy payload.sub
        else none)
    row ← gets (λ db. p.find_unique sub db.users)
    user ← require (unauthorized "Unauthorized") row
    guard (is_active_user user.status) (unauthorized "Unauthorized")
    pure (sub, user)
