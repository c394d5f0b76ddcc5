-- ===== src/Daemon.antt =====
-- cmd/netfilterd/main.go: what the daemon does before it serves requests, with ApplyAll of
-- internal/services/services.go. The flags, and what config.Load and database.Open return, are
-- arguments.
pub mod Admin
use rpi_network_filter.Common.{
  ℕ, Bool, ◌&&◌, ◌||◌, Option, none, some, List, [], ◌++◌, Text, ok, err, map, if◌then◌else◌,
}
use rpi_network_filter.Config.{Config}
use rpi_network_filter.Strings.{is_nil}
use rpi_network_filter.Db.{Db, Error}
use rpi_network_filter.Auth.{create_user, reset_password}
use rpi_network_filter.Dns.{apply_blocklist}
use rpi_network_filter.Hotspot.{apply_hotspot}
use rpi_network_filter.Bandwidth.{apply_limits}
use rpi_network_filter.Firewall.Apply.{Effect, exec, apply}
use rpi_network_filter.Http.{Env}

-- The flags, without the path of the configuration.
pub record Flags : Type 0 where
  pub dry_run : Bool
  pub init_admin : Bool
  pub reset_admin : Bool
  pub username : Text
  pub password : Text
  pub version : Bool

-- How main ends, or that it serves requests, with TLS or without.
pub data Outcome : Type 0 where
  exit_success no_config no_database no_password : Outcome
  admin_failed : Error → Outcome
  serving : Bool → Outcome

-- ApplyAll: the effects of the four services, each tried whatever became of those before it.
unfoldable pub apply_all : Env → Db → List Effect
unfolding apply apply_blocklist apply_limits apply_hotspot
apply_all env s =
    (apply env.host env.cfg env.works s).1
    ++ (apply_blocklist env.cfg.dry_run env.works s).1
    ++ map exec ((apply_limits env.cfg (λ c. env.works (exec c)) s).1)
    ++ (apply_hotspot env.cfg.dry_run env.works s).1

-- The settings with the flag --dry-run.
unfoldable pub with_flags : Flags → Config → Config
with_flags flags cfg = record cfg { dry_run = flags.dry_run || cfg.dry_run }

-- --init-admin and --reset-admin.
unfoldable pub run_admin : Env → ℕ → Flags → Db → Outcome × Db
unfolding create_user reset_password
run_admin env salt flags s =
    let (result, s') =
      if flags.init_admin
      then create_user env.bcrypt salt flags.username flags.password s
      else reset_password env.bcrypt salt flags.username flags.password s in
    elim result [ err e ↦ (admin_failed e, s') | ok _ ↦ (exit_success, s') ]

-- Whether the server uses TLS. `cert_exists` is false where os.Stat says that a file does not exist.
unfoldable pub uses_tls : (Text → Bool) → Config → Bool
uses_tls cert_exists cfg = cfg.use_tls && cert_exists cfg.tls_cert

-- main behind database.Open, up to its server: how it ends, the tables, and the effects that were
-- tried by the services.
unfoldable pub start_up :
    Env → ℕ → (Text → Bool) → Flags → Config → Db → Outcome × (Option Db × List Effect)
unfolding apply_all run_admin uses_tls
start_up env salt cert_exists flags cfg s =
    if flags.init_admin || flags.reset_admin
    then (if is_nil flags.password
        then (no_password, (some s, []))
        else let (outcome, s') = run_admin env salt flags s in (outcome, (some s', [])))
    else (serving (uses_tls cert_exists cfg), (some s, apply_all (record env { cfg = cfg }) s))

-- main. `load` is what config.Load returns, and `open_` what database.Open does, if it and the
-- creation of the directory before it succeed.
unfoldable pub main :
    Env
    → ℕ
    → (Text → Bool)
    → Flags
    → Option Config
    → (Config → Option Db)
    → Outcome × (Option Db × List Effect)
unfolding start_up with_flags
main env salt cert_exists flags load open_ =
    if flags.version then (exit_success, (none, [])) else elim load [
      | none ↦ (no_config, (none, []))
      | some loaded ↦ elim (open_ (with_flags flags loaded)) [
        | none ↦ (no_database, (none, []))
        | some s ↦ start_up env salt cert_exists flags (with_flags flags loaded) s
      ]
    ]
