-- ===== src/Table.antt =====
-- A SQLite table by its primary key. A row is what loading its payload gives: a record, or the
-- exception that the load raises.
use delivery_system.Base.{
  ◌≡◌, refl, Option, none, some, List, [], ◌∷◌, Eq, ◌==◌, if◌then◌else◌, arith, String, String_eq,
  String-discrete,
}
use delivery_system.Errors.{Error, integrity_error, Result, ok, err}

pub data Row {ℓ} (A : Type ℓ) : Type ℓ where
  loads : A → Row A
  fails : Error → Row A

unfoldable pub read_row {ℓ} : {A : Type ℓ} → Row A → Result A
read_row (loads a) = ok a
read_row (fails e) = err e

abbrev pub Table {ℓ κ} : Type ℓ → Type κ → Type (ℓ ⊔ κ)
Table K A = List (K × Row A)

-- The key of the tables that hold one row for each operation of an application.
pub record OperationKey : Type 0 where
  pub application : String
  pub operation : String

unfoldable pub OperationKey-discrete : Discrete OperationKey
OperationKey-discrete = hlevel String-discrete

instance unfoldable pub OperationKey_eq : Eq OperationKey
OperationKey_eq = record { dec = OperationKey-discrete }

module _ {ℓ κ} {K : Type ℓ} ⦃e : Eq K⦄ {A : Type κ} where
  -- `SELECT payload … WHERE key`, `fetchone`
  unfoldable pub lookup : K → Table K A → Option (Row A)
  lookup k [] = none
  lookup k ((j, row) ∷ t) = if j == k then some row else lookup k t

  -- `UPDATE … SET payload WHERE key`: a missing row stays missing.
  unfoldable pub update : K → A → Table K A → Table K A
  update k a [] = []
  update k a ((j, row) ∷ t) = if j == k then (k, loads a) ∷ t else (j, row) ∷ update k a t

  -- `INSERT`: the primary key refuses a second row.
  unfoldable pub insert : K → A → Table K A → Result (Table K A)
  unfolding lookup
  insert k a t = elim (lookup k t) [ none ↦ ok ((k, loads a) ∷ t) | some row ↦ err integrity_error ]

  pub lookup-update :
      (k j : K) (a : A) (t : Table K A)
      → lookup j (update k a t) ≡ (
          if k == j
          then elim (lookup k t) [ none ↦ none | some row ↦ some (loads a) ]
          else lookup j t)
  unfolding lookup update
  lookup-update k j a [] = ground arith
  lookup-update k j a ((i, row) ∷ t) = ground (arith, lookup-update k j a t)

  -- An insertion that succeeds found no row, and adds this one.
  pub insert-eq-ok :
      (k : K) (a : A) (t t' : Table K A)
      → insert k a t ≡ ok t'
      → (lookup k t ≡ none) × (t' ≡ (k, loads a) ∷ t)
  unfolding insert
  insert-eq-ok k a t t' h = ground arith

  pub lookup-cons :
      (k j : K) (row : Row A) (t : Table K A)
      → lookup j ((k, row) ∷ t) ≡ (if k == j then some row else lookup j t)
  unfolding lookup
  lookup-cons k j row t = refl

-- A row that loads.
pub read_row-eq-ok {ℓ} : {A : Type ℓ} (row : Row A) {a : A} → read_row row ≡ ok a → row ≡ loads a
unfolding read_row
read_row-eq-ok row h = ground arith
