-- ===== src/Tests/Migrations.antt =====
-- Migrations of a number: the third one fails.
use rpi_network_filter.Common.{ℕ, ◌+◌, ◌*◌, ◌≡◌, refl, Option, none, some, List, [], ◌∷◌, err}
use rpi_network_filter.Migrations.{Store, migrate}
use rpi_network_filter.Migrations.Rerun.{migrate-migrate}

abbrev steps : List (ℕ → Option ℕ)
steps = (λ n. some (n + 1)) ∷ (λ n. some (n * 10)) ∷ (λ n. none) ∷ (λ n. some 0) ∷ []

abbrev fresh : Store ℕ
fresh = record { version = 0; content = 4 }

third_fails : migrate steps fresh ≡ (err 3, record { version = 2; content = 50 })
unfolding migrate
third_fails = refl

migrate-migrate_example : migrate steps (migrate steps fresh).1 ≡ migrate steps fresh
migrate-migrate_example = migrate-migrate steps fresh
