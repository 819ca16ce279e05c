-- ===== src/Exec.antt =====
-- Request handlers: methods that read and change the application's state and that may throw one of
-- the HTTP exceptions of Nest, which common/filters turns into a response. What was written before
-- a throw stays written, so the state comes back beside the exception too.
pub mod Keeps
use rag_stack_monorepo.Prelude.{◌≡◌, refl, Bool, true, false, Option, none, some, String, arith}

-- The exceptions that the services throw. `fault` is any other error, such as a rejected promise of
-- the database client; a client sees it as a 500.
pub data HttpError : Type 0 where
  bad_request unauthorized forbidden not_found conflict internal unavailable : String → HttpError
  fault : HttpError

pub data Result (A : Type 0) : Type 0 where
  ok : A → Result A
  err : HttpError → Result A

abbrev pub Exec : Type 0 → Type 0 → Type 0
Exec S A = S → Result A × S

module _ {S A : Type 0} where
  abbrev pub pure : A → Exec S A
  pure a s = (ok a, s)

  abbrev pub throw : HttpError → Exec S A
  throw e s = (err e, s)

  abbrev pub gets : (S → A) → Exec S A
  gets f s = (ok (f s), s)

  -- `if (!value) throw e`
  abbrev pub require : HttpError → Option A → Exec S A
  require e none s = (err e, s)
  require e (some a) s = (ok a, s)

  abbrev pub lift : Result A → Exec S A
  lift r s = (r, s)

  -- `$transaction`: the changes of a callback that throws, or whose commit fails, are rolled back.
  abbrev pub finish : Bool → S → Result A × S → Result A × S
  finish true s (ok a, s') = (ok a, s')
  finish false s (ok a, s') = (err fault, s)
  finish committed s (err e, s') = (err e, s)

  abbrev pub transaction : Bool → Exec S A → Exec S A
  transaction committed m s = finish committed s (m s)

module _ {S : Type 0} where
  abbrev pub modify : (S → S) → Exec S Unit
  modify f s = (ok tt, f s)

  -- `if (!test) throw e`
  abbrev pub guard : Bool → HttpError → Exec S Unit
  guard true e s = (ok tt, s)
  guard false e s = (err e, s)

module _ {S A B : Type 0} where
  abbrev pub continue : Result A × S → (A → Exec S B) → Result B × S
  continue (ok a, s) f = f a s
  continue (err e, s) f = (err e, s)

  infixl 10 ◌>>=◌ ◌>>◌
  -- Shut, so that proofs about a block can follow its actions one by one.
  unfoldable pub ◌>>=◌ : Exec S A → (A → Exec S B) → Exec S B
  ◌>>=◌ m f s = continue (m s) f

  abbrev pub ◌>>◌ : Exec S A → Exec S B → Exec S B
  m >> n = m >>= λ _. n

  -- A block that succeeds has run its first action to the end. The rest of the argument is handed
  -- the value and the state in between.
  pub after_bind {ℓ} :
      {C : Type ℓ} (m : Exec S A) (f : A → Exec S B) (s : S) {b : B} {t : S}
      → (m >>= f) s ≡ (ok b, t)
      → ((a : A) (u : S) → m s ≡ (ok a, u) → f a u ≡ (ok b, t) → C)
      → C
  unfolding ◌>>=◌
  after_bind {C} m f s {b} {t} h k = go (m s) refl h
    where
      go : (r : Result A × S) → m s ≡ r → continue r f ≡ (ok b, t) → C
      go (ok a, u) e g = k a u e g
      go (err x, u) e g = absurd (ground arith)

  pub after_require {ℓ} :
      {C : Type ℓ} (e : HttpError) (o : Option A) (f : A → Exec S B) (s : S) {b : B} {t : S}
      → (require e o >>= f) s ≡ (ok b, t)
      → ((a : A) → o ≡ some a → f a s ≡ (ok b, t) → C)
      → C
  unfolding ◌>>=◌
  after_require e none f s h k = absurd (ground arith)
  after_require e (some a) f s h k = k a refl h

  pub after_gets {ℓ} :
      {C : Type ℓ} (g : S → A) (f : A → Exec S B) (s : S) {b : B} {t : S}
      → (gets g >>= f) s ≡ (ok b, t)
      → ((a : A) → g s ≡ a → f a s ≡ (ok b, t) → C)
      → C
  unfolding ◌>>=◌
  after_gets g f s h k = k (g s) refl h

module _ {S B : Type 0} where
  pub after_guard {ℓ} :
      {C : Type ℓ} (c : Bool) (e : HttpError) (n : Exec S B) (s : S) {b : B} {t : S}
      → (guard c e >> n) s ≡ (ok b, t)
      → (c ≡ true → n s ≡ (ok b, t) → C)
      → C
  unfolding ◌>>=◌
  after_guard true e n s h k = k refl h
  after_guard false e n s h k = absurd (ground arith)

module _ {S A : Type 0} where
  -- What a transaction returns, its callback returned, and the changes are those of the callback.
  pub transaction-eq-ok :
      (committed : Bool) (m : Exec S A) (s : S) {a : A} {t : S}
      → transaction committed m s ≡ (ok a, t)
      → m s ≡ (ok a, t)
  transaction-eq-ok committed m s h = go committed (m s) h
    where
      go : {a : A} {t : S} (b : Bool) (r : Result A × S) → finish b s r ≡ (ok a, t) → r ≡ (ok a, t)
      go true (ok x, u) k = k
      go false (ok x, u) k = ground arith
      go b (err x, u) k = ground arith

  -- `try { m } catch { throw e }`
  abbrev pub replace_error : HttpError → Result A × S → Result A × S
  replace_error e (ok a, s) = (ok a, s)
  replace_error e (err x, s) = (err e, s)

  abbrev pub or_throw : HttpError → Exec S A → Exec S A
  or_throw e m s = replace_error e (m s)
