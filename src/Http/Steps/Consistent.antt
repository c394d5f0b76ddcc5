-- ===== src/Http/Steps/Consistent.antt =====
-- Whatever happens to the daemon, the tables of policies stay consistent.
use rpi_network_filter.Common.{inl, inr, codes, Option-cases, List, [], ◌∷◌}
use rpi_network_filter.Models.{User}
use rpi_network_filter.Auth.{validate_session, logout}
use rpi_network_filter.Login.{login_locked, handle_login}
use rpi_network_filter.Auth as Auth
use rpi_network_filter.Policy.Invariant.{IsConsistent}
use rpi_network_filter.Firewall.Apply.Effects.{Result-cases}
use rpi_network_filter.Db.{Db}
use rpi_network_filter.Policy.Domains.{refresh_all-IsConsistent}
use rpi_network_filter.Http.Router.Consistent.Services.{SamePolicies, scan-frame}
use rpi_network_filter.Http.Steps.{refresh, scan_, entry, clean, scan_devices}
use rpi_network_filter.Http.{Env, Site, Request, Handler}
use rpi_network_filter.Http.Accounts.{
  authenticate, auth_required, api_auth_required, client_ip, login_page, login, log_out,
}
use rpi_network_filter.Http.Router.{Route, login_page_, login_, logout_, page_of, api, serve}
use rpi_network_filter.Http.Router.Consistent.{Keeps, answer-Keeps}
use rpi_network_filter.Http.Router.Consistent.Others.{handle-Keeps}
use rpi_network_filter.Http.Router.Consistent.Services.{
  SamePolicies-IsConsistent, validate_session-frame, logout-frame, login-frame,
}
use rpi_network_filter.Http.Steps.{
  Event, request, goroutine, wait, pick_job, run_job, step, step_all,
}

authenticate-IsConsistent :
    (r : Request) (s : Site) → IsConsistent s.store → IsConsistent (authenticate r s).1.store
unfolding authenticate
authenticate-IsConsistent r s c = elim (Option-cases r.session) [
  | inl e ↦ rw (e, authenticate) c
  | inr (token, e) ↦
      let kept =
        SamePolicies-IsConsistent s.store (validate_session token s.store).1
          (validate_session-frame token s.store) c in
      elim (Result-cases (validate_session token s.store).0) [
        | inl (u, f) ↦ rw (e, authenticate) (rw (f, authenticate) kept)
        | inr (x, f) ↦ rw (e, authenticate) (rw (f, authenticate) kept)
      ]
]

module _ (r : Request) (k : User → Handler) (h : (user : User) → Keeps (k user)) where
  auth_required-Keeps : Keeps (auth_required r k)
  unfolding auth_required
  auth_required-Keeps = record {
    kept = λ s c. elim (Option-cases (authenticate r s).0) [
      | inl e ↦ rw (e, auth_required) (authenticate-IsConsistent r s c)
      | inr (u, e) ↦ rw (e, auth_required) ((h u).kept _ (authenticate-IsConsistent r s c))
    ];
  }

  api_auth_required-Keeps : Keeps (api_auth_required r k)
  unfolding api_auth_required
  api_auth_required-Keeps = record {
    kept = λ s c. elim (Option-cases (authenticate r s).0) [
      | inl e ↦ rw (e, api_auth_required) (authenticate-IsConsistent r s c)
      | inr (u, e) ↦ rw (e, api_auth_required) ((h u).kept _ (authenticate-IsConsistent r s c))
    ];
  }

login_page-Keeps : (r : Request) → Keeps (login_page r)
unfolding login_page
login_page-Keeps r = record {
  kept = λ s c. elim (Option-cases (authenticate r s).0) [
    | inl e ↦ rw (e, login_page) (authenticate-IsConsistent r s c)
    | inr (u, e) ↦ rw (e, login_page) (authenticate-IsConsistent r s c)
  ];
}

log_out-Keeps : (r : Request) → Keeps (log_out r)
unfolding log_out
log_out-Keeps r = record {
  kept = λ s c. elim (Option-cases r.session) [
    | inl e ↦ rw (e, log_out) c
    | inr (token, e) ↦
        rw (e, log_out)
          (SamePolicies-IsConsistent s.store (logout token s.store).1 (logout-frame token s.store)
            c)
  ];
}

login-Keeps : (env : Env) (r : Request) → Keeps (login env r)
unfolding login handle_login
login-Keeps env r = record {
  kept = λ s c.
      elim (Option-cases (login_locked s.store.now (client_ip r.remote_addr) s.attempts)) [
        | inr (left, e) ↦ rw (e, handle_login) c
        | inl e ↦ elim (Option-cases r.credentials) [
          | inl f ↦ rw (e, handle_login) (rw (f, handle_login) c)
          | inr (req, f) ↦
              let kept =
                SamePolicies-IsConsistent s.store
                  (Auth.login env.bcrypt r.random req.username req.password s.store).1
                  (login-frame env.bcrypt r.random req.username req.password s.store) c in
              elim (Result-cases
                (Auth.login env.bcrypt r.random req.username req.password s.store).0) [
                  | inl (token, g) ↦
                      rw (e, handle_login) (rw (f, handle_login) (rw (g, handle_login) kept))
                  | inr (x, g) ↦
                      rw (e, handle_login) (rw (f, handle_login) (rw (g, handle_login) kept))
                ]
        ]
      ];
}

serve-Keeps : (env : Env) (r : Request) (route : Route) → Keeps (serve env r route)
unfolding serve
serve-Keeps env r login_page_ = login_page-Keeps r
serve-Keeps env r login_ = login-Keeps env r
serve-Keeps env r logout_ = log_out-Keeps r
serve-Keeps env r (page_of template) = auth_required-Keeps r _ (λ user. answer-Keeps _)
serve-Keeps env r (api e) = api_auth_required-Keeps r _ (handle-Keeps env r e)

scan_devices-frame : (env : Env) (s : Db) → SamePolicies s (scan_devices env s)
unfolding scan_devices
scan_devices-frame env s =
    scan-frame env.cfg.lan_interface (env.read_file (codes "/var/lib/misc/dnsmasq.leases"))
      (env.read_file (codes "/proc/net/arp")) s

step-IsConsistent : (e : Event) (s : Site) → IsConsistent s.store → IsConsistent (step e s).store
unfolding step run_job
step-IsConsistent (request env route r) s c = (serve-Keeps env r route).kept s c
step-IsConsistent (goroutine env n) s c = elim (Option-cases (pick_job n s.jobs)) [
  | inl e ↦ rw (e, run_job) c
  | inr (found, e) ↦ rw (e, run_job) c
]
step-IsConsistent (refresh env) s c = refresh_all-IsConsistent env.host s.store c
step-IsConsistent (scan_ env) s c =
    SamePolicies-IsConsistent s.store (scan_devices env s.store) (scan_devices-frame env s.store) c
step-IsConsistent (entry name e) s c = c
step-IsConsistent (clean cutoff) s c = c
step-IsConsistent (wait now) s c = record {
  policies = c.policies;
  domains = c.domains;
  devices = c.devices;
}

-- From consistent tables, whatever requests come in on whatever routes, with or without a session,
-- whatever of their effects fail, in whatever order the goroutines run that they start, whatever
-- the tickers and the tails find between, and however the clock is set, the tables of policies are
-- consistent: there is exactly one default policy, ids and names stand for one policy each, names
-- and modes are valid, every allow-list entry holds a valid domain and belongs to a policy that has
-- it once, and every assignment is to a policy and the only one of its device.
pub step_all-IsConsistent :
    (es : List Event) (s : Site) → IsConsistent s.store → IsConsistent (step_all es s).store
unfolding step_all
step_all-IsConsistent [] s c = c
step_all-IsConsistent (e ∷ es) s c = step_all-IsConsistent es (step e s) (step-IsConsistent e s c)
