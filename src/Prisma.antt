-- ===== src/Prisma.antt =====
-- The database client. Prisma and PostgreSQL are not part of the repository, so they are a
-- parameter: tables of rows under unique keys, the queries that the services make, and the
-- documented laws of those queries that the theorems rely on.
pub mod Laws
pub mod Lists
use mathlib.Core.Option
use rag_stack_monorepo.Prelude.{
  ℕ, ◌≤◌, ◌≡◌, ◌↔◌, Bool, true, Option, none, some, List, [], ◌∷◌, In, All, Distinct, Eq, map,
  if◌then◌else◌, head, length,
}

-- `order` is descending in a number that stands for a timestamp or a version number.
abbrev pub IsDescending : {K R : Type 0} → (R → ℕ) → List (K × R) → Type 0
IsDescending order [] = Unit
IsDescending order (x ∷ xs) = All (λ y. order y.1 ≤ order x.1) xs × IsDescending order xs

pub record Prisma : Type 1 where
  pub Table : Type 0 → Type 0 → Type 0
  -- findUnique({ where: key })
  pub find_unique : {K R : Type 0} ⦃e : Eq K⦄ → K → Table K R → Option R
  -- The row under `key` is created, or replaced, as by create, update and upsert.
  pub put : {K R : Type 0} ⦃e : Eq K⦄ → K → R → Table K R → Table K R
  -- delete({ where: key })
  pub delete : {K R : Type 0} ⦃e : Eq K⦄ → K → Table K R → Table K R
  -- updateMany({ where, data })
  pub update_many : {K R : Type 0} ⦃e : Eq K⦄ → (K → R → Bool) → (R → R) → Table K R → Table K R
  -- findMany({ where, orderBy: { order: "desc" } })
  pub find_many : {K R : Type 0} ⦃e : Eq K⦄ → (R → ℕ) → (K → R → Bool) → Table K R → List (K × R)
  pub find_unique-put :
      {K R : Type 0} ⦃e : Eq K⦄ (k j : K) (r : R) (t : Table K R)
      → find_unique j (put k r t) ≡ (if e.beq k j then some r else find_unique j t)
  pub find_unique-delete :
      {K R : Type 0} ⦃e : Eq K⦄ (k j : K) (t : Table K R)
      → find_unique j (delete k t) ≡ (if e.beq k j then none else find_unique j t)
  pub find_unique-update_many :
      {K R : Type 0} ⦃e : Eq K⦄ (where_ : K → R → Bool) (f : R → R) (k : K) (t : Table K R)
      → find_unique k (update_many where_ f t)
        ≡ Option.map (λ r. if where_ k r then f r else r) (find_unique k t)
  pub find_many_iff :
      {K R : Type 0} ⦃e : Eq K⦄ (order : R → ℕ) (where_ : K → R → Bool) (t : Table K R) (k : K)
      (r : R)
      → In (k, r) (find_many order where_ t) ↔ ((find_unique k t ≡ some r) × (where_ k r ≡ true))
  pub find_many-Distinct :
      {K R : Type 0} ⦃e : Eq K⦄ (order : R → ℕ) (where_ : K → R → Bool) (t : Table K R)
      → Distinct (map (λ x. x.0) (find_many order where_ t))
  pub find_many-IsDescending :
      {K R : Type 0} ⦃e : Eq K⦄ (order : R → ℕ) (where_ : K → R → Bool) (t : Table K R)
      → IsDescending order (find_many order where_ t)

-- The queries that are read off `findMany`: `findFirst` is its first row, `count` its length.
module _ (p : Prisma) {K R : Type 0} ⦃e : Eq K⦄ where
  abbrev pub find_first : (R → ℕ) → (K → R → Bool) → p.Table K R → Option (K × R)
  find_first order where_ t = head (p.find_many order where_ t)

  abbrev pub count : (K → R → Bool) → p.Table K R → ℕ
  count where_ t = length (p.find_many (λ _. 0) where_ t)
