-- ===== src/Exec/Keeps.antt =====
-- Properties of the state that an action keeps, whether it returns or throws.
use rag_stack_monorepo.Prelude.{true, false, ◌≡◌, refl, sym, Bool}
use rag_stack_monorepo.Exec.{
  guard, ◌>>◌, finish, transaction, Result, ok, err, Exec, continue, ◌>>=◌, Bool, transaction,
  finish, HttpError,
}
use mathlib.Core.Path.{subst, sym}

abbrev pub Keeps {ℓ} : {S A : Type 0} → (S → Type ℓ) → Exec S A → Type ℓ
Keeps P m = (s : _) → P s → P (m s).1

module _ {ℓ} {S A B : Type 0} (P : S → Type ℓ) where
  -- The rest of a block may use how its state was reached.
  pub Keeps-bind :
      (m : Exec S A) (f : A → Exec S B)
      → Keeps P m
      → ((a : A) (s t : S) → m s ≡ (ok a, t) → P t → P (f a t).1)
      → Keeps P (m >>= f)
  unfolding ◌>>=◌
  Keeps-bind m f first next s h = go (m s) refl (first s h)
    where
      go : (r : Result A × S) → m s ≡ r → P r.1 → P (continue r f).1
      go (ok a, t) e k = next a s t e k
      go (err x, t) e k = k

  -- An action that leaves the state alone, followed by the rest.
  pub Keeps-read :
      (m : Exec S A) (f : A → Exec S B)
      → ((s : S) → (m s).1 ≡ s)
      → ((a : A) (s : S) → m s ≡ (ok a, s) → P s → P (f a s).1)
      → Keeps P (m >>= f)
  unfolding ◌>>=◌
  Keeps-read m f same next s h = go (m s) refl (same s)
    where
      go : (r : Result A × S) → m s ≡ r → r.1 ≡ s → P (continue r f).1
      go (ok a, t) e k = subst (λ u. P (f a u).1) (sym k) (next a s (rw k at e) h)
      go (err x, t) e k = subst P (sym k) h

-- `m` leads from states with `P` to states with `Q`, whether it returns or throws.
abbrev pub Leads {ℓ} : {S A : Type 0} → (S → Type ℓ) → (S → Type ℓ) → Exec S A → Type ℓ
Leads P Q m = (s : _) → P s → Q (m s).1

module _ {ℓ} {S A : Type 0} (P Q : S → Type ℓ) where
  -- A rolled back transaction is in the state where it began.
  pub Leads-transaction :
      (committed : Bool) (m : Exec S A)
      → ((s : S) → P s → Q s)
      → Leads P Q m
      → Leads P Q (transaction committed m)
  Leads-transaction committed m back step s h = go committed (m s) (step s h)
    where
      go : (b : Bool) (r : Result A × S) → Q r.1 → Q (finish b s r).1
      go true (ok a, t) k = k
      go false (ok a, t) k = back s h
      go true (err e, t) k = back s h
      go false (err e, t) k = back s h

module _ {ℓ} {S A B : Type 0} (P R Q : S → Type ℓ) where
  -- `R` holds between the two parts of a block, and is enough if the first part throws.
  pub Leads-bind :
      (m : Exec S A) (f : A → Exec S B)
      → ((s : S) → R s → Q s)
      → Leads P R m
      → ((a : A) (s t : S) → m s ≡ (ok a, t) → R t → Q (f a t).1)
      → Leads P Q (m >>= f)
  unfolding ◌>>=◌
  Leads-bind m f out first next s h = go (m s) refl (first s h)
    where
      go : (r : Result A × S) → m s ≡ r → R r.1 → Q (continue r f).1
      go (ok a, t) e k = next a s t e k
      go (err x, t) e k = out t k

module _ {ℓ} {S B : Type 0} (Q : S → Type ℓ) where
  -- The rest of a block runs in the state that its guard was asked in.
  pub after_guard_keeps :
      (c : Bool) (e : HttpError) (n : Exec S B) (s : S)
      → Q s
      → (c ≡ true → Q (n s).1)
      → Q ((guard c e >> n) s).1
  unfolding ◌>>=◌
  after_guard_keeps true e n s h k = k refl
  after_guard_keeps false e n s h k = h
