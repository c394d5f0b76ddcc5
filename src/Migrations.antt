-- ===== src/Migrations.antt =====
-- internal/database/migrations.go: Migrate, the loop over the versions of the schema. What a
-- migration's SQL does to a database is a parameter: none where a statement of its transaction fails,
-- the row of schema_version and the commit included.
pub mod Rerun
use rpi_network_filter.Common.{
  ℕ, ◌+◌, suc, Option, none, some, List, [], ◌∷◌, Result, ok, err, drop,
}

-- A database with the highest version in schema_version, 0 without that table.
pub record Store (A : Type 0) : Type 0 where
  pub version : ℕ
  pub content : A

module _ {A : Type 0} where
  -- The loop from a version on. A failed transaction is rolled back, and its version is the error.
  unfoldable pub migrate_from : List (A → Option A) → Store A → Result ℕ (Unit {0}) × Store A
  migrate_from [] s = (ok tt, s)
  migrate_from (m ∷ ms) s = elim (m s.content) [
    | none ↦ (err (suc s.version), s)
    | some content ↦ migrate_from ms (record { version = suc s.version; content = content })
  ]

  unfoldable pub migrate : List (A → Option A) → Store A → Result ℕ (Unit {0}) × Store A
  unfolding migrate_from
  migrate migrations s = migrate_from (drop s.version migrations) s
