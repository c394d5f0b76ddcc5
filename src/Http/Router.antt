-- ===== src/Http/Router.antt =====
-- internal/handlers/router.go: which handler a route has, and behind which middleware. Matching a
-- request with a pattern is chi's; static files and the certificate's download are left out.
pub mod Gate
pub mod Consistent
pub mod Applied
use rpi_network_filter.Common.{
  ℕ, Bool, true, false, ◌&&◌, Option, List, [], ◌∷◌, ◌++◌, Text, codes, text_eq, map, find, none,
  some,
}
use Prim.Native.String.{String}
use rpi_network_filter.Models.{User}
use rpi_network_filter.Http.{Env, Site, Request, page, Reply, Handler, json, answer}
use rpi_network_filter.Http.Accounts as Accounts
use rpi_network_filter.Http.Policies as Policies
use rpi_network_filter.Http.Firewall as Firewall
use rpi_network_filter.Http.Blocked as Blocked
use rpi_network_filter.Http.Dns as Dns
use rpi_network_filter.Http.Devices as Devices
use rpi_network_filter.Http.Bandwidth as Bandwidth
use rpi_network_filter.Http.Settings as Settings
use rpi_network_filter.Http.System as System

-- The handlers of policies.go and of the firewall's routes.
pub data FilterEndpoint : Type 0 where
  assign_device_ unassign_device_ : FilterEndpoint
  policy_list policy_create policy_assignments policy_get policy_update policy_delete :
      FilterEndpoint
  policy_domains policy_domain_create policy_domain_update policy_domain_delete : FilterEndpoint
  rule_list rule_create rule_update rule_delete : FilterEndpoint
  allowed_list allowed_create allowed_update allowed_delete allowed_ips : FilterEndpoint

-- The other handlers behind APIAuthRequired.
pub data Endpoint : Type 0 where
  filter : FilterEndpoint → Endpoint
  me_ dashboard_ device_list device_update : Endpoint
  blocked_list blocked_create blocked_update blocked_delete : Endpoint
  dns_list dns_create dns_import dns_delete : Endpoint
  limit_list limit_create limit_update limit_delete : Endpoint
  settings_get settings_update settings_password : Endpoint
  system_info system_audit traffic_get traffic_clear : Endpoint
  stats_summary_ stats_domains stats_clients stats_timeseries system_connectivity system_reboot :
      Endpoint

-- A route: without middleware, behind AuthRequired with a template, or behind APIAuthRequired.
pub data Route : Type 0 where
  login_page_ login_ logout_ : Route
  page_of : Text → Route
  api : Endpoint → Route

module _ (env : Env) (r : Request) where
  unfoldable pub handle_filter : FilterEndpoint → Handler
  handle_filter assign_device_ = Policies.assign env r
  handle_filter unassign_device_ = Policies.unassign env r
  handle_filter policy_list = Policies.list
  handle_filter policy_create = Policies.create r
  handle_filter policy_assignments = Policies.list_device_assignments
  handle_filter policy_get = Policies.get r
  handle_filter policy_update = Policies.update env r
  handle_filter policy_delete = Policies.delete env r
  handle_filter policy_domains = Policies.list_policy_domains r
  handle_filter policy_domain_create = Policies.create_policy_domain env r
  handle_filter policy_domain_update = Policies.update_policy_domain env r
  handle_filter policy_domain_delete = Policies.delete_policy_domain env r
  handle_filter rule_list = Firewall.list
  handle_filter rule_create = Firewall.create env r
  handle_filter rule_update = Firewall.update env r
  handle_filter rule_delete = Firewall.delete env r
  handle_filter allowed_list = Firewall.list_allowed
  handle_filter allowed_create = Firewall.create_allowed env r
  handle_filter allowed_update = Firewall.update_allowed env r
  handle_filter allowed_delete = Firewall.delete_allowed env r
  handle_filter allowed_ips = Firewall.allowed_domain_ips env

  unfoldable pub handle : Endpoint → User → Handler
  unfolding handle_filter
  handle (filter e) user = handle_filter e
  handle me_ user = Accounts.me user
  handle dashboard_ user = System.dashboard_counts env
  handle device_list user = Devices.list
  handle device_update user = Devices.update r
  handle blocked_list user = Blocked.list
  handle blocked_create user = Blocked.create env r
  handle blocked_update user = Blocked.update env r
  handle blocked_delete user = Blocked.delete env r
  handle dns_list user = Dns.list
  handle dns_create user = Dns.create env r
  handle dns_import user = Dns.import_list env r
  handle dns_delete user = Dns.delete env r
  handle limit_list user = Bandwidth.list
  handle limit_create user = Bandwidth.create env r
  handle limit_update user = Bandwidth.update env r
  handle limit_delete user = Bandwidth.delete env r
  handle settings_get user = Settings.get
  handle settings_update user = Settings.update r
  handle settings_password user = Settings.change_password env user r
  handle system_info user = System.get_system_info env
  handle system_audit user = System.recent_audit_log
  handle traffic_get user = System.traffic_log env r
  handle traffic_clear user = System.clear_traffic_log
  handle stats_summary_ user = System.stats_summary r
  handle stats_domains user = System.stats_top_domains r
  handle stats_clients user = System.stats_top_clients r
  handle stats_timeseries user = System.stats_time_series env r
  handle system_connectivity user = System.connectivity_results env
  handle system_reboot user = System.reboot

  unfoldable pub serve : Route → Handler
  serve login_page_ = Accounts.login_page r
  serve login_ = Accounts.login env r
  serve logout_ = Accounts.log_out r
  serve (page_of template) = Accounts.auth_required r (λ user. answer (json 200 (page template)))
  serve (api e) = Accounts.api_auth_required r (handle e)

abbrev entry : String → String → Route → Text × Text × Route
entry method pattern route = (codes method, codes pattern, route)

abbrev page_entry : String → String → Text × Text × Route
page_entry pattern template = entry "GET" pattern (page_of (codes template))

-- The routes with their methods and patterns.
unfoldable pub routes : List (Text × Text × Route)
routes =
    entry "GET" "/login" login_page_
    ∷ page_entry "/" "dashboard.html"
    ∷ page_entry "/traffic" "traffic.html"
    ∷ page_entry "/stats" "stats.html"
    ∷ page_entry "/devices" "devices.html"
    ∷ page_entry "/firewall" "firewall.html"
    ∷ page_entry "/allowlist" "allowlist.html"
    ∷ page_entry "/policies" "policies.html"
    ∷ page_entry "/blocklist" "blocklist.html"
    ∷ page_entry "/dns" "dns.html"
    ∷ page_entry "/bandwidth" "bandwidth.html"
    ∷ page_entry "/settings" "settings.html"
    ∷ entry "POST" "/api/login" login_
    ∷ entry "POST" "/api/logout" logout_
    ∷ entry "GET" "/api/me" (api me_)
    ∷ entry "GET" "/api/dashboard" (api dashboard_)
    ∷ entry "GET" "/api/devices/" (api device_list)
    ∷ entry "PUT" "/api/devices/{mac}" (api device_update)
    ∷ entry "PUT" "/api/devices/{mac}/policy" (api (filter assign_device_))
    ∷ entry "DELETE" "/api/devices/{mac}/policy" (api (filter unassign_device_))
    ∷ entry "GET" "/api/policies/" (api (filter policy_list))
    ∷ entry "POST" "/api/policies/" (api (filter policy_create))
    ∷ entry "GET" "/api/policies/assignments" (api (filter policy_assignments))
    ∷ entry "GET" "/api/policies/{id}" (api (filter policy_get))
    ∷ entry "PUT" "/api/policies/{id}" (api (filter policy_update))
    ∷ entry "DELETE" "/api/policies/{id}" (api (filter policy_delete))
    ∷ entry "GET" "/api/policies/{id}/domains" (api (filter policy_domains))
    ∷ entry "POST" "/api/policies/{id}/domains" (api (filter policy_domain_create))
    ∷ entry "PUT" "/api/policies/domains/{domainID}" (api (filter policy_domain_update))
    ∷ entry "DELETE" "/api/policies/domains/{domainID}" (api (filter policy_domain_delete))
    ∷ entry "GET" "/api/firewall/rules/" (api (filter rule_list))
    ∷ entry "POST" "/api/firewall/rules/" (api (filter rule_create))
    ∷ entry "PUT" "/api/firewall/rules/{id}" (api (filter rule_update))
    ∷ entry "DELETE" "/api/firewall/rules/{id}" (api (filter rule_delete))
    ∷ entry "GET" "/api/firewall/allowed-domains/" (api (filter allowed_list))
    ∷ entry "POST" "/api/firewall/allowed-domains/" (api (filter allowed_create))
    ∷ entry "PUT" "/api/firewall/allowed-domains/{id}" (api (filter allowed_update))
    ∷ entry "DELETE" "/api/firewall/allowed-domains/{id}" (api (filter allowed_delete))
    ∷ entry "GET" "/api/firewall/allowed-domains/ips" (api (filter allowed_ips))
    ∷ entry "GET" "/api/firewall/blocked-domains/" (api blocked_list)
    ∷ entry "POST" "/api/firewall/blocked-domains/" (api blocked_create)
    ∷ entry "PUT" "/api/firewall/blocked-domains/{id}" (api blocked_update)
    ∷ entry "DELETE" "/api/firewall/blocked-domains/{id}" (api blocked_delete)
    ∷ entry "GET" "/api/dns/blocklist/" (api dns_list)
    ∷ entry "POST" "/api/dns/blocklist/" (api dns_create)
    ∷ entry "POST" "/api/dns/blocklist/import" (api dns_import)
    ∷ entry "DELETE" "/api/dns/blocklist/{id}" (api dns_delete)
    ∷ entry "GET" "/api/bandwidth/limits/" (api limit_list)
    ∷ entry "POST" "/api/bandwidth/limits/" (api limit_create)
    ∷ entry "PUT" "/api/bandwidth/limits/{id}" (api limit_update)
    ∷ entry "DELETE" "/api/bandwidth/limits/{id}" (api limit_delete)
    ∷ entry "GET" "/api/settings/" (api settings_get)
    ∷ entry "PUT" "/api/settings/" (api settings_update)
    ∷ entry "PUT" "/api/settings/password" (api settings_password)
    ∷ entry "GET" "/api/system/info" (api system_info)
    ∷ entry "GET" "/api/system/audit" (api system_audit)
    ∷ entry "GET" "/api/system/connectivity" (api system_connectivity)
    ∷ entry "GET" "/api/system/traffic" (api traffic_get)
    ∷ entry "POST" "/api/system/traffic/clear" (api traffic_clear)
    ∷ entry "GET" "/api/system/stats/summary" (api stats_summary_)
    ∷ entry "GET" "/api/system/stats/top-domains" (api stats_domains)
    ∷ entry "GET" "/api/system/stats/top-clients" (api stats_clients)
    ∷ entry "GET" "/api/system/stats/timeseries" (api stats_timeseries)
    ∷ entry "POST" "/api/system/reboot" (api system_reboot)
    ∷ []

-- The route of a method and of the pattern that chi matched, if there is one.
unfoldable pub find_route : Text → Text → Option Route
unfolding routes text_eq
find_route method pattern = elim (find (λ e. text_eq e.0 method && text_eq e.1 pattern) routes) [
  | none ↦ none
  | some e ↦ some e.2
]
