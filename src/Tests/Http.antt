-- ===== src/Tests/Http.antt =====
-- Requests: the theorems on routes and handlers at concrete inputs.
use rpi_network_filter.Common.{
  ◌≡◌, refl, ◌⊎◌, true, none, some, List, [], ◌∷◌, Text, codes, text_eq,
}
use rpi_network_filter.Config.{defaults}
use rpi_network_filter.Auth.{Bcrypt}
use rpi_network_filter.Policy.{delete_policy, delete_policy_row}
use rpi_network_filter.Policy.Invariant.{IsConsistent}
use rpi_network_filter.Firewall.Apply.{apply, perform_all}
use rpi_network_filter.Http.{Env, Site, Request, outcome, call, audit, applied, apply_firewall}
use rpi_network_filter.Http.Params.{with_id, parse_int}
use rpi_network_filter.Http.Policies as Policies
use rpi_network_filter.Http.Router.{api, filter, policy_delete, logout_, serve, handle_filter}
use rpi_network_filter.Http.Router.Gate.{SameButSessions, serve-IsAnonymous}
use rpi_network_filter.Http.Steps.{Event, request, goroutine, wait, refresh, scan_, step_all}
use rpi_network_filter.Http.Steps.Consistent.{step_all-IsConsistent}
use rpi_network_filter.Tests.Data.{seeded, seeded-IsConsistent, sample_host, validation}

abbrev pub plain : Bcrypt
plain = record { generate = λ salt p. some p; compare = text_eq }

-- A machine on which every effect succeeds.
abbrev pub sample_env : Env
sample_env = record {
  host = sample_host;
  cfg = defaults;
  bcrypt = plain;
  works = λ e. true;
  read_file = λ name. none;
  output = λ command. none;
  datetime = λ n. [];
  strftime = λ format n. [];
  last_insert_rowid = 0;
}

abbrev idle : Site
idle = record {
  attempts = [];
  store = seeded;
  traffic = record { now = 100; query_log = []; query_log_seq = 0; dns_cache = [] };
  effects = [];
  jobs = [];
}

-- A request without a cookie, whose parameters of the path all read the same.
abbrev bare : Text → Request
bare param = record {
  url_param = λ name. param;
  query = λ name. [];
  session = none;
  remote_addr = codes "192.168.4.5:54321";
  random = none;
  salt = 0;
  policy = none;
  domain = none;
  policy_id = none;
  rule = none;
  allowed_domain = none;
  blocked_domain = none;
  dns_entry = none;
  dns_text = none;
  device = none;
  limit = none;
  settings = none;
  credentials = none;
  password = none;
}

abbrev delete_tesla : Request
delete_tesla = bare (codes "2")

serve-IsAnonymous_example :
    (((serve sample_env delete_tesla (api (filter policy_delete)) idle).0.status ≡ 302)
      ⊎ ((serve sample_env delete_tesla (api (filter policy_delete)) idle).0.status ≡ 401))
    × SameButSessions idle (serve sample_env delete_tesla (api (filter policy_delete)) idle).1
serve-IsAnonymous_example =
    serve-IsAnonymous sample_env delete_tesla (api (filter policy_delete)) idle refl
      (λ token e user f. cc e)

abbrev events : List Event
events =
    request sample_env (api (filter policy_delete)) delete_tesla
    ∷ goroutine sample_env 0
    ∷ wait 200
    ∷ refresh sample_env
    ∷ scan_ sample_env
    ∷ request sample_env logout_ delete_tesla
    ∷ []

step_all-IsConsistent_example : IsConsistent (step_all events idle).store
step_all-IsConsistent_example = step_all-IsConsistent events idle seeded-IsConsistent

opened : Unit {0}
unfolding validation handle_filter Policies.delete with_id parse_int call outcome delete_policy
    delete_policy_row audit apply_firewall applied apply perform_all
opened = tt

abbrev after : Site
after = (handle_filter sample_env delete_tesla policy_delete idle).1
