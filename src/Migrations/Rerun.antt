-- ===== src/Migrations/Rerun.antt =====
-- A second run of the migrations.
use rpi_network_filter.Common.{
  ℕ, zero, suc, ◌≡◌, refl, inl, inr, Option-cases, Option, List, [], ◌∷◌, drop,
}
use rpi_network_filter.Migrations.{Store, migrate_from, migrate}

module _ {A : Type 0} where
  drop-suc :
      (n : ℕ) (ms : List (A → Option A)) (m : A → Option A) (rest : List (A → Option A))
      → drop n ms ≡ m ∷ rest
      → drop (suc n) ms ≡ rest
  drop-suc zero [] m rest e = cc
  drop-suc zero (k ∷ ms) m rest e = cc
  drop-suc (suc n) [] m rest e = cc
  drop-suc (suc n) (k ∷ ms) m rest e = drop-suc n ms m rest e

  migrate_from-again :
      (ms rest : List (A → Option A)) (s : Store A)
      → drop s.version ms ≡ rest
      → migrate ms (migrate_from rest s).1 ≡ migrate_from rest s
  unfolding migrate migrate_from
  migrate_from-again ms [] s e = rw e refl
  migrate_from-again ms (m ∷ rest) s e = elim (Option-cases (m s.content)) [
    | inl f ↦ rw (f, migrate_from) (rw e (rw (f, migrate_from) refl))
    | inr (c, f) ↦
        rw (f, migrate_from)
          (migrate_from-again ms rest (record { version = suc s.version; content = c })
            (drop-suc s.version ms m rest e))
  ]

  -- A second run of Migrate has the result of the first one and changes nothing: behind a success
  -- there is nothing to do, and behind a failure the same version fails on the same content, since
  -- what it did was rolled back and the versions before it are not applied again.
  pub migrate-migrate :
      (ms : List (A → Option A)) (s : Store A) → migrate ms (migrate ms s).1 ≡ migrate ms s
  unfolding migrate
  migrate-migrate ms s = migrate_from-again ms (drop s.version ms) s refl
