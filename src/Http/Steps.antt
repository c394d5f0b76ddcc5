-- ===== src/Http/Steps.antt =====
-- The daemon as a machine of steps: requests, goroutines that run, and time that goes by.
pub mod Consistent
use rpi_network_filter.Common.{
  ℕ, zero, suc, Option, none, some, List, [], ◌∷◌, ◌++◌, Text, codes, Result,
}
use rpi_network_filter.Db.{Db, Error}
use rpi_network_filter.Dns.{apply_blocklist}
use rpi_network_filter.Hotspot.{apply_hotspot}
use rpi_network_filter.Firewall.Apply.{Effect, exec, apply, perform_all}
use rpi_network_filter.Policy.{refresh_all}
use rpi_network_filter.Network.{scan}
use rpi_network_filter.Traffic.Journal.{JournalEntry, handle_entry, clean_old_entries}
use rpi_network_filter.Http.{
  Env, Job, apply_firewall_, apply_dns_, apply_hotspot_, reboot_, Site, Request,
}
use rpi_network_filter.Http.Router.{Route, serve}

-- The effects of a goroutine, under the tables that it finds.
unfoldable pub job_effects : Env → Job → Db → List Effect
unfolding apply apply_blocklist apply_hotspot perform_all
job_effects env apply_firewall_ s = (apply env.host env.cfg env.works s).1
job_effects env apply_dns_ s = (apply_blocklist env.cfg.dry_run env.works s).1
job_effects env apply_hotspot_ s = (apply_hotspot env.cfg.dry_run env.works s).1
job_effects env reboot_ s =
    (perform_all env.cfg.dry_run env.works (exec (codes "systemctl" ∷ codes "reboot" ∷ []) ∷ [])).1

-- The job at a position, and the others.
unfoldable pub pick_job : ℕ → List Job → Option (Job × List Job)
pick_job n [] = none
pick_job zero (j ∷ js) = some (j, js)
pick_job (suc n) (j ∷ js) = elim (pick_job n js) [ none ↦ none | some (k, ks) ↦ some (k, j ∷ ks) ]

unfoldable pub run_job : Env → ℕ → Site → Site
unfolding pick_job job_effects
run_job env n s = elim (pick_job n s.jobs) [
  | none ↦ s
  | some (job, jobs) ↦ record s { effects = s.effects ++ job_effects env job s.store; jobs = jobs }
]

-- `scan` of NetworkService, with the files that it opens.
unfoldable pub scan_devices : Env → Db → Db
unfolding scan
scan_devices env s =
    scan env.cfg.lan_interface (env.read_file (codes "/var/lib/misc/dnsmasq.leases"))
      (env.read_file (codes "/proc/net/arp")) s

-- What happens next, under what the services get from outside meanwhile. Goroutines run one at a
-- time and in any order. Between them the tickers of PolicyService and NetworkService and the tails of
-- TrafficLogService run.
pub data Event : Type 0 where
  request : Env → Route → Request → Event
  goroutine : Env → ℕ → Event
  refresh scan_ : Env → Event
  entry : Text → JournalEntry → Event
  clean : (ℕ → Text → Option ℕ) → Event
  wait : ℕ → Event

unfoldable pub step : Event → Site → Site
unfolding serve run_job refresh_all scan_devices handle_entry clean_old_entries
step (request env route r) s = (serve env r route s).1
step (goroutine env n) s = run_job env n s
step (refresh env) s = record s { store = refresh_all env.host s.store }
step (scan_ env) s = record s { store = scan_devices env s.store }
step (entry name e) s = record s { traffic = handle_entry name e s.traffic }
step (clean cutoff) s = record s { traffic = clean_old_entries cutoff s.store.settings s.traffic }
step (wait now) s = record s {
  store = record s.store { now = now };
  traffic = record s.traffic { now = now };
}

unfoldable pub step_all : List Event → Site → Site
unfolding step
step_all [] s = s
step_all (e ∷ es) s = step_all es (step e s)
