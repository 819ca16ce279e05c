-- ===== src/Auth/Sessions.antt =====
-- Refresh sessions of services/api/src/auth/auth.service.ts: lemmas on looking one up, on rotating it
-- and on closing it, and the theorems on refreshing and logging out.
use rag_stack_monorepo.Prelude.{
  ℕ, String, ◌≡◌, refl, ap, ◌∙◌, ◌≢◌, inl, inr, true, none, some, arith, eq_iff, Option-cases,
  is_some, string_eq, pair_eq,
}
use rag_stack_monorepo.Exec.{
  ok, err, transaction, ◌>>=◌, after_bind, after_require, after_gets, after_guard,
  transaction-eq-ok,
}
use rag_stack_monorepo.Prisma.{Prisma}
use rag_stack_monorepo.Schema.{Db, User, RefreshSession}
use rag_stack_monorepo.Auth.{
  Payload, Credentials, SafeUser, TokenPair, invalid_token, refresh_claims, session_ok,
  find_session, revoke, rotate, refresh, logout, issue_token_pair, resolve_token_expiration, issued,
  new_session, open_session,
}
use mathlib.Core.Path.{subst}

module _ (c : Credentials) (p : Prisma) where
  -- The session that a token names: its claims, and the row under them.
  record Names (now : ℕ) (token : String) (db : Db p) (claims : String × String)
      (session : RefreshSession) : Type 0 where
    payload : Payload
    verified : c.verify now token ≡ some payload
    claimed : refresh_claims payload ≡ some claims
    found : p.find_unique claims.0 db.sessions ≡ some session

  find_session-Names :
      (now : ℕ) (token : String) (db db' : Db p) (claims : String × String)
      (session : RefreshSession)
      → find_session c p now token db ≡ (ok (claims, session), db')
      → Names now token db claims session × (db' ≡ db)
  unfolding find_session
  find_session-Names now token db db' claims session h = after_require _ _ _ _ h λ q v h1.
      after_require _ _ _ _ h1 λ cl r h2. after_gets _ _ _ h2 λ o f h3.
        after_require _ _ _ _ h3 λ x g h4. (
          record {
            payload = q;
            verified = v;
            claimed = ground (arith, r, h4);
            found = ground (arith, f, g, h4);
          },
          ground (arith, h4),
        )

  rotated :
      (now : ℕ) (new_id old : String) (session : RefreshSession) (id email : String) (db db' : Db p)
      {pair : TokenPair}
      → rotate c p now new_id old session id email db ≡ (ok pair, db')
      → new_id ≢ old
      → (p.find_unique old db'.sessions ≡ some (revoke now session)) × (db'.users ≡ db.users)
  unfolding rotate issue_token_pair ◌>>=◌
  rotated now new_id old session id email db db' h fresh =
      elim (Option-cases (resolve_token_expiration c (issued c now new_id id email))) [
        | inl n ↦ absurd (ground arith)
        | inr (at, e) ↦
            let start = p.put old (revoke now session) db.sessions in
            let row = new_session c id (issued c now new_id id email) at in
            (
              ground (
                arith,
                p.find_unique-put new_id old row start,
                p.find_unique-put old old (revoke now session) db.sessions,
                eq_iff new_id old,
                eq_iff old old,
              ),
              ground arith,
            )
      ]

  -- A token that names a revoked session is refused.
  revoked_refused :
      (later : ℕ) (other_id token : String) (db : Db p) (claims : String × String)
      (session : RefreshSession) (user : User)
      → p.find_unique claims.0 db.sessions ≡ some session
      → p.find_unique session.user_id db.users ≡ some user
      → is_some session.revoked_at ≡ true
      → ((q : Payload) → c.verify later token ≡ some q → refresh_claims q ≡ some claims)
      → (refresh c p later other_id token db).0 ≡ err invalid_token
  unfolding refresh find_session session_ok ◌>>=◌
  revoked_refused later other_id token db claims session user f g r named =
      elim (Option-cases (c.verify later token)) [
        | inl n ↦ rw n
        | inr (q, v) ↦ rw v (rw (named q v) (rw f (rw g (ground arith))))
      ]

  same_claims :
      {now : ℕ} {token : String} {db : Db p} {claims : String × String} {session : RefreshSession}
      → Names now token db claims session
      → (q : Payload) → c.verify now token ≡ some q
      → refresh_claims q ≡ some claims
  same_claims n q v = cc (n.verified, n.claimed, v)

  -- After a refresh that succeeds, and whatever the clock says, the same token is refused, if the
  -- new session has an identifier that no session had, and if a token that is accepted later was
  -- accepted before with the same claims.
  pub refresh_once :
      (now later : ℕ) (new_id other_id token : String) (db db' : Db p) {r : TokenPair × SafeUser}
      → p.find_unique new_id db.sessions ≡ none
      → ((q : Payload) → c.verify later token ≡ some q → c.verify now token ≡ some q)
      → refresh c p now new_id token db ≡ (ok r, db')
      → (refresh c p later other_id token db').0 ≡ err invalid_token
  unfolding refresh revoke
  refresh_once now later new_id other_id token db db' fresh stable h =
      after_bind (find_session c p now token) _ db h λ f u e1 k1.
        let (named, same) = find_session-Names now token db u f.0 f.1 e1 in
        after_gets _ _ u k1 λ row g k2. after_require _ _ _ u k2 λ user g2 k3.
          after_guard _ _ _ u k3 λ _ k4.
            after_bind
              (transaction c.commits (rotate c p now new_id f.0.0 f.1 f.1.user_id user.email)) _ u
              k4
              λ pair v e5 k5.
                let (revoked, kept) =
                  rotated now new_id f.0.0 f.1 f.1.user_id user.email u v
                    (transaction-eq-ok c.commits
                      (rotate c p now new_id f.0.0 f.1 f.1.user_id user.email) u e5)
                    (λ q.
                      cc
                        (fresh, named.found, ap (λ (k : String). p.find_unique k db.sessions) q)) in
                subst (λ d. (refresh c p later other_id token d).0 ≡ err invalid_token)
                  (ap (λ x. x.1) k5)
                  (revoked_refused later other_id token v f.0 (revoke now f.1) user revoked
                    (rw kept (g ∙ g2)) refl (λ q w. same_claims named q (stable q w)))

  closed_by_logout :
      (now later : ℕ) (user_id sub token id : String) (db : Db p) (session : RefreshSession)
      (user : User)
      → p.find_unique id (logout c p now user_id db).1.sessions ≡ some session
      → session_ok c later sub token session user ≡ true
      → session.user_id ≢ user_id
  unfolding logout revoke session_ok
  closed_by_logout now later user_id sub token id db session user f good own =
      elim (Option-cases (p.find_unique id db.sessions)) [
        | inl n ↦
            cc (f, n, p.find_unique-update_many (open_session user_id) (revoke now) id db.sessions)
        | inr (old, o) ↦ absurd (
            ground (
              arith,
              f,
              o,
              p.find_unique-update_many (open_session user_id) (revoke now) id db.sessions,
              eq_iff old.user_id user_id,
            ))
      ]

  -- After a logout no refresh succeeds for that user: with whatever token, and whenever it comes,
  -- a refresh that succeeds on the state that the logout left is for another user.
  pub logout_ends_sessions :
      (now later : ℕ) (user_id new_id token : String) (db db' : Db p) (r : TokenPair × SafeUser)
      → refresh c p later new_id token (logout c p now user_id db).1 ≡ (ok r, db')
      → r.1.id ≢ user_id
  unfolding refresh
  logout_ends_sessions now later user_id new_id token db db' r h =
      after_bind (find_session c p later token) _ _ h λ f u e1 k1.
        let (named, same) =
          find_session-Names later token (logout c p now user_id db).1 u f.0 f.1 e1 in
        after_gets _ _ u k1 λ row g k2. after_require _ _ _ u k2 λ user g2 k3.
          after_guard _ _ _ u k3 λ good k4.
            after_bind
              (transaction c.commits (rotate c p later new_id f.0.0 f.1 f.1.user_id user.email)) _ u
              k4
              λ pair v e5 k5 own.
                closed_by_logout now later user_id f.0.1 token f.0.0 db f.1 user named.found good
                  (ground (arith, k5, own))
