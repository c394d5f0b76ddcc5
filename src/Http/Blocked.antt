-- ===== src/Http/Blocked.antt =====
-- internal/handlers/blocked.go: BlockedHandler.
use rpi_network_filter.Common.{true, ◌++◌, codes, if◌then◌else◌}
use rpi_network_filter.Models.{BlockedDomain}
use rpi_network_filter.Strings.{is_nil}
use rpi_network_filter.Blocked.{list_blocked, create_blocked, update_blocked, delete_blocked}
use rpi_network_filter.Http.{
  Env, Request, blocked_domains, created, Handler, json, json_error, ok_reply, answer, with_body,
  call, audit,
}
use rpi_network_filter.Http.Params.{with_id}
use rpi_network_filter.Http.Policies.{error_text}
use rpi_network_filter.Http.Dns.{apply_dns}

unfoldable pub list : Handler
unfolding list_blocked
list s = (json 200 (blocked_domains (list_blocked s.store)), s)

-- The entry of a request: enabled, and with a suffix for the domain unless it says otherwise.
abbrev pub defaults : BlockedDomain → BlockedDomain
defaults d = record d {
  enabled = true;
  match_type = if is_nil d.match_type then codes "suffix" else d.match_type;
}

module _ (env : Env) where
  -- Create behind its test for an empty domain.
  unfoldable pub create_row : BlockedDomain → Handler
  create_row d = call (create_blocked (defaults d)) (error_text 500) λ row.
      audit (codes "blocklist.create") d.domain
        (apply_dns env (codes "saved but failed to apply DNS: ") (json 201 (created row)))

  unfoldable pub create : Request → Handler
  create r = with_body r.blocked_domain λ d.
      if is_nil d.domain then answer (json_error 400 (codes "domain is required")) else create_row d

  unfoldable pub update : Request → Handler
  update r = with_id (r.url_param (codes "id")) (codes "invalid id") λ id.
      with_body r.blocked_domain λ d. call (update_blocked id.row d) (error_text 500) λ _.
        audit (codes "blocklist.update") d.domain
          (apply_dns env (codes "updated but failed to apply DNS: ") ok_reply)

  unfoldable pub delete : Request → Handler
  delete r = with_id (r.url_param (codes "id")) (codes "invalid id") λ id.
      call (delete_blocked id.row) (error_text 500) λ _.
        audit (codes "blocklist.delete") (codes "id=" ++ r.url_param (codes "id"))
          (apply_dns env (codes "deleted but failed to apply DNS: ") ok_reply)
