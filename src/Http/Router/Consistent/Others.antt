-- ===== src/Http/Router/Consistent/Others.antt =====
-- The other endpoints keep the tables of policies consistent.
use rpi_network_filter.Common.{ltb, List, length, Text, codes, map}
use rpi_network_filter.Strings.{is_nil}
use rpi_network_filter.Models.{User, BlockedDomain, Setting}
use rpi_network_filter.Auth.{reset_password}
use rpi_network_filter.Blocked.{create_blocked, update_blocked, delete_blocked}
use rpi_network_filter.Dns.{create_entry, delete_entry, import_domains, apply_blocklist}
use rpi_network_filter.Network.{update_device}
use rpi_network_filter.Bandwidth.{create_limit, update_limit, delete_limit, apply_limits}
use rpi_network_filter.Firewall.Apply.{exec}
use rpi_network_filter.Traffic.{clear}
use rpi_network_filter.Common.{inl, inr, Option-cases}
use rpi_network_filter.System.{test_connectivity}
use rpi_network_filter.Http.{Env, Request, Reply, ok_reply, answer}
use rpi_network_filter.Http.Accounts as Accounts
use rpi_network_filter.Http.Blocked as Blocked
use rpi_network_filter.Http.Dns as Dns
use rpi_network_filter.Http.Devices as Devices
use rpi_network_filter.Http.Bandwidth as Bandwidth
use rpi_network_filter.Http.Settings as Settings
use rpi_network_filter.Http.System as System
use rpi_network_filter.Http.Router.{
  Endpoint, filter, me_, dashboard_, device_list, device_update, blocked_list, blocked_create,
  blocked_update, blocked_delete, dns_list, dns_create, dns_import, dns_delete, limit_list,
  limit_create, limit_update, limit_delete, settings_get, settings_update, settings_password,
  system_info, system_audit, traffic_get, traffic_clear, stats_summary_, stats_domains,
  stats_clients, system_reboot, stats_timeseries, system_connectivity, handle,
}
use rpi_network_filter.Http.Router.Consistent.{
  Keeps, same-Keeps, answer-Keeps, if-Keeps, with_body-Keeps, call-Keeps, with_id-Keeps,
  audit-Keeps, start-Keeps, applied-Keeps,
}
use rpi_network_filter.Http.Router.Consistent.Endpoints.{handle_filter-Keeps}
use rpi_network_filter.Http.Router.Consistent.Services.{
  frame, create_blocked-frame, update_blocked-frame, delete_blocked-frame, create_entry-frame,
  delete_entry-frame, import_domains-frame, update_device-frame, create_limit-frame,
  update_limit-frame, delete_limit-frame, commit-frame, reset_password-frame,
}

module _ (env : Env) where
  connectivity-Keeps : Keeps (System.connectivity_results env)
  unfolding System.connectivity_results
  connectivity-Keeps = record {
    kept = λ s c. elim (Option-cases (test_connectivity env.output)) [
      | inl e ↦ rw (e, System.connectivity_results) c
      | inr (results, e) ↦ rw (e, System.connectivity_results) c
    ];
  }

  apply_dns-Keeps : (prefix : Text) (reply : Reply) → Keeps (Dns.apply_dns env prefix reply)
  unfolding Dns.apply_dns
  apply_dns-Keeps prefix reply =
      applied-Keeps (λ s. apply_blocklist env.cfg.dry_run env.works s.store) prefix reply

  apply_bandwidth-Keeps :
      (prefix : Text) (reply : Reply) → Keeps (Bandwidth.apply_bandwidth env prefix reply)
  unfolding Bandwidth.apply_bandwidth
  apply_bandwidth-Keeps prefix reply =
      applied-Keeps
        (λ s.
          let (result, commands) = apply_limits env.cfg (λ c. env.works (exec c)) s.store in
          (result, map exec commands))
        prefix reply

  reload-Keeps : (rs : List Setting) → Keeps (Settings.reload rs)
  unfolding Settings.reload
  reload-Keeps rs =
      if-Keeps (Settings.needs_dns_reload rs) _ _ (start-Keeps _ _ (answer-Keeps ok_reply))
        (answer-Keeps ok_reply)

module _ (env : Env) (r : Request) where
  blocked_create_row-Keeps : (d : BlockedDomain) → Keeps (Blocked.create_row env d)
  unfolding Blocked.create_row
  blocked_create_row-Keeps d =
      call-Keeps (create_blocked (Blocked.defaults d)) _ _
        (frame (create_blocked (Blocked.defaults d)) (create_blocked-frame (Blocked.defaults d)))
        λ row. audit-Keeps _ _ _ (apply_dns-Keeps env _ _)

  blocked_update-Keeps : Keeps (Blocked.update env r)
  unfolding Blocked.update
  blocked_update-Keeps = with_id-Keeps _ _ _ λ id. with_body-Keeps r.blocked_domain _ λ d.
      call-Keeps (update_blocked id.row d) _ _
        (frame (update_blocked id.row d) (update_blocked-frame id.row d))
        λ row. audit-Keeps _ _ _ (apply_dns-Keeps env _ _)

  blocked_delete-Keeps : Keeps (Blocked.delete env r)
  unfolding Blocked.delete
  blocked_delete-Keeps = with_id-Keeps _ _ _ λ id.
      call-Keeps (delete_blocked id.row) _ _
        (frame (delete_blocked id.row) (delete_blocked-frame id.row))
        λ row. audit-Keeps _ _ _ (apply_dns-Keeps env _ _)

  dns_create-Keeps : Keeps (Dns.create env r)
  unfolding Dns.create
  dns_create-Keeps = with_body-Keeps r.dns_entry _ λ d.
      call-Keeps (create_entry d.domain d.category) _ _
        (frame (create_entry d.domain d.category) (create_entry-frame d.domain d.category))
        λ row. audit-Keeps _ _ _ (apply_dns-Keeps env _ _)

  dns_delete-Keeps : Keeps (Dns.delete env r)
  unfolding Dns.delete
  dns_delete-Keeps = with_id-Keeps _ _ _ λ id.
      call-Keeps (delete_entry id.row) _ _ (frame (delete_entry id.row) (delete_entry-frame id.row))
        λ row. audit-Keeps _ _ _ (apply_dns-Keeps env _ _)

  dns_import_list-Keeps : Keeps (Dns.import_list env r)
  unfolding Dns.import_list
  dns_import_list-Keeps = with_body-Keeps r.dns_text _ λ d.
      call-Keeps (import_domains d.text d.category) _ _
        (frame (import_domains d.text d.category) (import_domains-frame d.text d.category))
        λ row. audit-Keeps _ _ _ (apply_dns-Keeps env _ _)

  devices_update-Keeps : Keeps (Devices.update r)
  unfolding Devices.update
  devices_update-Keeps = with_body-Keeps r.device _ λ d.
      call-Keeps (update_device (r.url_param (codes "mac")) d.alias d.is_blocked) _ _
        (frame (update_device (r.url_param (codes "mac")) d.alias d.is_blocked)
          (update_device-frame (r.url_param (codes "mac")) d.alias d.is_blocked))
        λ row. audit-Keeps _ _ _ (start-Keeps _ _ (answer-Keeps ok_reply))

  bandwidth_create-Keeps : Keeps (Bandwidth.create env r)
  unfolding Bandwidth.create
  bandwidth_create-Keeps = with_body-Keeps r.limit _ λ l.
      call-Keeps (create_limit env.last_insert_rowid l) _ _
        (frame (create_limit env.last_insert_rowid l) (create_limit-frame env.last_insert_rowid l))
        λ row. audit-Keeps _ _ _ (apply_bandwidth-Keeps env _ _)

  bandwidth_update-Keeps : Keeps (Bandwidth.update env r)
  unfolding Bandwidth.update
  bandwidth_update-Keeps = with_id-Keeps _ _ _ λ id. with_body-Keeps r.limit _ λ l.
      call-Keeps (update_limit id.row l) _ _
        (frame (update_limit id.row l) (update_limit-frame id.row l))
        λ row. audit-Keeps _ _ _ (apply_bandwidth-Keeps env _ _)

  bandwidth_delete-Keeps : Keeps (Bandwidth.delete env r)
  unfolding Bandwidth.delete
  bandwidth_delete-Keeps = with_id-Keeps _ _ _ λ id.
      call-Keeps (delete_limit id.row) _ _ (frame (delete_limit id.row) (delete_limit-frame id.row))
        λ row. audit-Keeps _ _ _ (apply_bandwidth-Keeps env _ _)

  blocked_create-Keeps : Keeps (Blocked.create env r)
  unfolding Blocked.create
  blocked_create-Keeps =
      with_body-Keeps r.blocked_domain _
        λ d. if-Keeps (is_nil d.domain) _ _ (answer-Keeps _) (blocked_create_row-Keeps d)

  settings_update-Keeps : Keeps (Settings.update r)
  unfolding Settings.update
  settings_update-Keeps = with_body-Keeps r.settings _ λ rs.
      call-Keeps (Settings.commit rs) _ _ (frame (Settings.commit rs) (commit-frame rs)) λ _.
        audit-Keeps _ _ _ (
          if-Keeps (Settings.needs_hotspot_restart rs) _ _ (start-Keeps _ _ (reload-Keeps env rs))
            (reload-Keeps env rs))

  change_password-Keeps : (user : User) → Keeps (Settings.change_password env user r)
  unfolding Settings.change_password
  change_password-Keeps user = with_body-Keeps r.password _ λ password.
      if-Keeps (ltb (length password) 8) _ _ (answer-Keeps _) (
        call-Keeps (reset_password env.bcrypt r.salt user.username password) _ _
          (frame (reset_password env.bcrypt r.salt user.username password)
            (reset_password-frame env.bcrypt r.salt user.username password))
          λ _. audit-Keeps _ _ _ (answer-Keeps ok_reply))

  clear-Keeps : Keeps System.clear_traffic_log
  unfolding System.clear_traffic_log
  clear-Keeps = record {
    kept = λ s c.
        (audit-Keeps (codes "traffic.clear") (codes "user cleared traffic log") (answer ok_reply)
            (answer-Keeps ok_reply)).kept
          (record s { traffic = clear s.traffic }) c;
  }

  pub handle-Keeps : (e : Endpoint) (user : User) → Keeps (handle env r e user)
  unfolding handle Accounts.me System.dashboard_counts Devices.list Blocked.list Dns.list
      Bandwidth.list Settings.get System.get_system_info System.recent_audit_log System.traffic_log
      System.stats_summary System.stats_time_series System.stats_top_domains
      System.stats_top_clients System.reboot
  handle-Keeps (filter e) user = handle_filter-Keeps env r e
  handle-Keeps me_ user = answer-Keeps _
  handle-Keeps dashboard_ user = same-Keeps _
  handle-Keeps device_list user = same-Keeps _
  handle-Keeps device_update user = devices_update-Keeps
  handle-Keeps blocked_list user = same-Keeps _
  handle-Keeps blocked_create user = blocked_create-Keeps
  handle-Keeps blocked_update user = blocked_update-Keeps
  handle-Keeps blocked_delete user = blocked_delete-Keeps
  handle-Keeps dns_list user = same-Keeps _
  handle-Keeps dns_create user = dns_create-Keeps
  handle-Keeps dns_import user = dns_import_list-Keeps
  handle-Keeps dns_delete user = dns_delete-Keeps
  handle-Keeps limit_list user = same-Keeps _
  handle-Keeps limit_create user = bandwidth_create-Keeps
  handle-Keeps limit_update user = bandwidth_update-Keeps
  handle-Keeps limit_delete user = bandwidth_delete-Keeps
  handle-Keeps settings_get user = same-Keeps _
  handle-Keeps settings_update user = settings_update-Keeps
  handle-Keeps settings_password user = change_password-Keeps user
  handle-Keeps system_info user = same-Keeps _
  handle-Keeps system_audit user = same-Keeps _
  handle-Keeps traffic_get user = same-Keeps _
  handle-Keeps traffic_clear user = clear-Keeps
  handle-Keeps stats_summary_ user = same-Keeps _
  handle-Keeps stats_domains user = same-Keeps _
  handle-Keeps stats_clients user = same-Keeps _
  handle-Keeps stats_timeseries user = same-Keeps _
  handle-Keeps system_connectivity user = connectivity-Keeps env
  handle-Keeps system_reboot user = audit-Keeps _ _ _ (start-Keeps _ _ (answer-Keeps _))
