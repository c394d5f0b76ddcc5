-- ===== src/Http/System.antt =====
-- internal/handlers/system.go and dashboard.go: SystemHandler and DashboardHandler.
use rpi_network_filter.Common.{ℕ, codes, count_where, ok, err}
use rpi_network_filter.Db.{Db}
use rpi_network_filter.Audit.{recent_actions}
use rpi_network_filter.Network.{get_device_count}
use rpi_network_filter.Dns.{get_count}
use rpi_network_filter.System.{get_info, test_connectivity}
use rpi_network_filter.Traffic.{clear}
use rpi_network_filter.Traffic.Queries.{
  TrafficFilter, query_paginated, summary, top_domains, top_clients,
}
use rpi_network_filter.Common.{some, none}
use rpi_network_filter.Traffic.Queries.{time_series}
use rpi_network_filter.Http.{
  connectivity, time_points, empty, Env, Request, Body, status_is, info, audit_log, traffic, counts,
  dashboard, Handler, json, ok_reply, answer, audit, start, reboot_,
}
use rpi_network_filter.Http.Params.{atoi}

unfoldable pub get_system_info : Env → Handler
unfolding get_info
get_system_info env s = (json 200 (info (get_info env.read_file env.output env.cfg)), s)

-- Reboot: the command runs in a goroutine.
unfoldable pub reboot : Handler
reboot =
    audit (codes "system.reboot") (codes "user requested reboot")
      (start reboot_ (answer (json 200 (status_is (codes "rebooting")))))

-- TestConnectivity; behind a panic chi's Recoverer answers.
unfoldable pub connectivity_results : Env → Handler
unfolding test_connectivity
connectivity_results env s = elim (test_connectivity env.output) [
  | none ↦ (json 500 empty, s)
  | some results ↦ (json 200 (connectivity results), s)
]

unfoldable pub traffic_filter : Request → TrafficFilter
unfolding atoi
traffic_filter r = record {
  page = atoi (r.query (codes "page"));
  per_page = atoi (r.query (codes "per_page"));
  action = r.query (codes "action");
  query = r.query (codes "q");
  from = r.query (codes "from");
  to = r.query (codes "to");
  source = r.query (codes "source");
}

unfoldable pub traffic_log : Env → Request → Handler
unfolding query_paginated traffic_filter
traffic_log env r s =
    (json 200 (traffic (query_paginated env.datetime (traffic_filter r) s.traffic)), s)

unfoldable pub clear_traffic_log : Handler
clear_traffic_log s =
    audit (codes "traffic.clear") (codes "user cleared traffic log") (answer ok_reply)
      (record s { traffic = clear s.traffic })

unfoldable pub stats_summary : Request → Handler
unfolding summary
stats_summary r s = (json 200 (Body.summary (summary (r.query (codes "range")) s.traffic)), s)

unfoldable pub stats_top_domains : Request → Handler
unfolding top_domains
stats_top_domains r s = (
  json 200 (counts (top_domains (r.query (codes "action")) (r.query (codes "range")) 10 s.traffic)),
  s,
)

unfoldable pub stats_top_clients : Request → Handler
unfolding top_clients
stats_top_clients r s = (json 200 (counts (top_clients (r.query (codes "range")) 10 s.traffic)), s)

unfoldable pub stats_time_series : Env → Request → Handler
unfolding time_series
stats_time_series env r s =
    (json 200 (time_points (time_series env.strftime (r.query (codes "range")) s.traffic)), s)

unfoldable pub recent_audit_log : Handler
unfolding recent_actions
recent_audit_log s = (json 200 (audit_log (recent_actions s.store 50)), s)

-- The counts of devices; both 0 where the query fails.
abbrev pub device_count : Db → ℕ × ℕ
device_count s = elim (get_device_count s) [ ok c ↦ c | err e ↦ (0, 0) ]

-- API of DashboardHandler.
unfoldable pub dashboard_counts : Env → Handler
unfolding get_device_count get_count get_info
dashboard_counts env s =
    let (online, total) = device_count s.store in
    (
      json 200 (
          dashboard online total (count_where (λ r. r.enabled) s.store.firewall_rules)
            (get_count s.store) (get_info env.read_file env.output env.cfg)),
      s,
    )
