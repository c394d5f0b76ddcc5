-- ===== src/Tests/Daemon.antt =====
-- The daemon's flags for the administrator, at a concrete database.
use rpi_network_filter.Common.{◌≡◌, refl, true, false, some, List, [], ◌∷◌, codes, text_eq_refl, ok}
use rpi_network_filter.Config.{defaults}
use rpi_network_filter.Db.{Db}
use rpi_network_filter.Auth.{BcryptLaws, create_user, generate_token, login}
use rpi_network_filter.Firewall.Apply.{Effect}
use rpi_network_filter.Daemon.{Flags, exit_success, run_admin, with_flags, start_up, main}
use rpi_network_filter.Daemon.Admin.{main-login}
use rpi_network_filter.Tests.Data.{seeded}
use rpi_network_filter.Tests.Http.{plain, sample_env}

abbrev first_admin : Flags
first_admin = record {
  dry_run = false;
  init_admin = true;
  reset_admin = false;
  username = codes "admin";
  password = codes "secret";
  version = false;
}

plain_laws : BcryptLaws plain
plain_laws = record {
  compare-generate = λ salt p hash e. let same : p ≡ hash = cc e in rw same (text_eq_refl hash);
}

abbrev with_admin : Db
with_admin = record seeded {
  users =
      record {
        id = 1;
        username = codes "admin";
        password_hash = codes "secret";
        created_at = seeded.now;
      }
      ∷ [];
  users_seq = 1;
}

set_up :
    main sample_env 7 (λ file. false) first_admin (some defaults) (λ cfg. some seeded)
    ≡ (exit_success, (some with_admin, []))
unfolding main start_up with_flags run_admin create_user
set_up = refl

drawn : generate_token (some (171 ∷ [])) ≡ some (codes "ab")
unfolding generate_token
drawn = refl

abbrev silent : List Effect
silent = []

main-login_example :
    ((login plain (some (171 ∷ [])) (codes "admin") (codes "secret") with_admin).0
      ≡ ok (codes "ab"))
    × (silent ≡ [])
main-login_example =
    main-login sample_env 7 first_admin plain_laws (λ file. false) with_admin silent (some defaults)
      (λ cfg. some seeded) (some (171 ∷ [])) (codes "ab") set_up drawn refl
