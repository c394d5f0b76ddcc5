-- ===== src/Http/Firewall.antt =====
-- internal/handlers/firewall.go: FirewallHandler.
use rpi_network_filter.Common.{true, ◌++◌, codes, if◌then◌else◌}
use rpi_network_filter.Models.{AllowedDomain}
use rpi_network_filter.Strings.{is_nil}
use rpi_network_filter.Firewall.{
  list_rules, create_rule, update_rule, delete_rule, list_allowed_domains, create_allowed_domain,
  update_allowed_domain, delete_allowed_domain,
}
use rpi_network_filter.Firewall.ActiveSet.{list_active_set_ips}
use rpi_network_filter.Http.{
  Env, Request, rules, allowed_domains, texts, created, Handler, json, json_error, ok_reply, answer,
  with_body, call, audit, apply_firewall,
}
use rpi_network_filter.Http.Params.{with_id}
use rpi_network_filter.Http.Policies.{error_text, domain_error, resolve}

unfoldable pub list_allowed : Handler
unfolding list_allowed_domains
list_allowed s = (json 200 (allowed_domains (list_allowed_domains s.store)), s)

module _ (env : Env) where
  -- CreateAllowedDomain behind its test for an empty domain.
  unfoldable pub create_allowed_row : AllowedDomain → Handler
  create_allowed_row d =
      call (create_allowed_domain (record d { enabled = true })) (domain_error 500) λ row.
        audit (codes "allowlist.create") d.domain (
          resolve env d.domain
            (apply_firewall env (codes "saved but failed to apply: ") (json 201 (created row))))

  unfoldable pub create_allowed : Request → Handler
  create_allowed r = with_body r.allowed_domain λ d.
      if is_nil d.domain
      then answer (json_error 400 (codes "domain is required"))
      else create_allowed_row d

  unfoldable pub update_allowed : Request → Handler
  update_allowed r = with_id (r.url_param (codes "id")) (codes "invalid id") λ id.
      with_body r.allowed_domain λ d. call (update_allowed_domain id.row d) (error_text 500) λ _.
        audit (codes "allowlist.update") d.domain
          (apply_firewall env (codes "updated but failed to apply: ") ok_reply)

  unfoldable pub delete_allowed : Request → Handler
  delete_allowed r = with_id (r.url_param (codes "id")) (codes "invalid id") λ id.
      call (delete_allowed_domain id.row) (error_text 500) λ _.
        audit (codes "allowlist.delete") (codes "id=" ++ r.url_param (codes "id"))
          (apply_firewall env (codes "deleted but failed to apply: ") ok_reply)

unfoldable pub list : Handler
unfolding list_rules
list s = (json 200 (rules (list_rules s.store)), s)

module _ (env : Env) where
  unfoldable pub create : Request → Handler
  create r = with_body r.rule λ rule. call (create_rule rule) (error_text 500) λ row.
      audit (codes "firewall.create") rule.description
        (apply_firewall env (codes "rule saved but failed to apply: ") (json 201 (created row)))

  unfoldable pub update : Request → Handler
  update r = with_id (r.url_param (codes "id")) (codes "invalid rule id") λ id.
      with_body r.rule λ rule. call (update_rule id.row rule) (error_text 500) λ _.
        audit (codes "firewall.update") rule.description
          (apply_firewall env (codes "rule updated but failed to apply: ") ok_reply)

  unfoldable pub delete : Request → Handler
  delete r = with_id (r.url_param (codes "id")) (codes "invalid rule id") λ id.
      call (delete_rule id.row) (error_text 500) λ _.
        audit (codes "firewall.delete") (codes "rule_id=" ++ r.url_param (codes "id"))
          (apply_firewall env (codes "rule deleted but failed to apply: ") ok_reply)

unfoldable pub allowed_domain_ips : Env → Handler
unfolding list_active_set_ips
allowed_domain_ips env s = (json 200 (texts (list_active_set_ips env.output 0 s.store)), s)
