-- ===== src/Http/Policies.antt =====
-- internal/handlers/policies.go: PoliciesHandler.
use rpi_network_filter.Common.{ℕ, true, Text, codes, ok, err}
use rpi_network_filter.Db.{Error, policy_not_found, default_policy_lock, domain_blocked}
use rpi_network_filter.Policy.{
  list_policies, get_policy, create_policy, update_policy, delete_policy, list_domains,
  create_domain, update_domain, delete_domain, resolve_domain, list_assignments, assign_device,
  unassign_device,
}
use rpi_network_filter.Http.{
  Env, Request, policy, policies, domains, assignments, created, Reply, Handler, json, json_error,
  json_failure, ok_reply, with_body, call, audit, apply_firewall,
}
use rpi_network_filter.Http.Params.{with_id, extract_mac, with_mac}

-- Answers to an error: with its text, and those that tell errors apart.
abbrev pub error_text : ℕ → Error → Reply
error_text status e = json_failure status (codes "") e

unfoldable pub get_error : Error → Reply
get_error policy_not_found = json_error 404 (codes "policy not found")
get_error e = error_text 500 e

unfoldable pub delete_error : Error → Reply
delete_error policy_not_found = json_error 404 (codes "policy not found")
delete_error default_policy_lock = error_text 409 default_policy_lock
delete_error e = error_text 500 e

-- 409 for a blocked domain, another status for another error.
unfoldable pub domain_error : ℕ → Error → Reply
domain_error status (domain_blocked match) = error_text 409 (domain_blocked match)
domain_error status e = error_text status e

unfoldable pub list : Handler
unfolding list_policies
list s = (json 200 (policies (list_policies s.store)), s)

unfoldable pub get : Request → Handler
get r = with_id (r.url_param (codes "id")) (codes "invalid policy id") λ id s.
    elim (get_policy s.store id.row) [ err e ↦ (get_error e, s) | ok p ↦ (json 200 (policy p), s) ]

unfoldable pub create : Request → Handler
create r = with_body r.policy λ p.
    call (create_policy p) (error_text 400)
      λ id. audit (codes "policy.create") p.name λ s. (json 201 (created id), s)

module _ (env : Env) where
  unfoldable pub update : Request → Handler
  update r = with_id (r.url_param (codes "id")) (codes "invalid policy id") λ id.
      with_body r.policy λ p. call (update_policy id.row p) (error_text 400) λ _.
        audit (codes "policy.update") p.name
          (apply_firewall env (codes "updated but failed to apply: ") ok_reply)

  unfoldable pub delete : Request → Handler
  delete r = with_id (r.url_param (codes "id")) (codes "invalid policy id") λ id.
      call (delete_policy id.row) delete_error λ _.
        audit (codes "policy.delete") id.text
          (apply_firewall env (codes "deleted but failed to apply: ") ok_reply)

unfoldable pub list_policy_domains : Request → Handler
list_policy_domains r =
    with_id (r.url_param (codes "id")) (codes "invalid policy id")
      λ id s. (json 200 (domains (list_domains s.store id.row)), s)

-- `h.policy.ResolveDomain(d.Domain)`, whose result is ignored, before the rest.
unfoldable pub resolve : Env → Text → Handler → Handler
unfolding resolve_domain
resolve env domain k s = k (record s { store = resolve_domain env.host domain s.store })

module _ (env : Env) where
  -- CreateDomain: the entry is enabled, whatever the request says.
  unfoldable pub create_policy_domain : Request → Handler
  create_policy_domain r = with_id (r.url_param (codes "id")) (codes "invalid policy id") λ id.
      with_body r.domain λ d.
        call (create_domain id.row (record d { enabled = true })) (domain_error 400) λ row.
          audit (codes "policy.domain.create") d.domain (
            resolve env d.domain
              (apply_firewall env (codes "saved but failed to apply: ") (json 201 (created row))))

  unfoldable pub update_policy_domain : Request → Handler
  update_policy_domain r =
      with_id (r.url_param (codes "domainID")) (codes "invalid domain id") λ id.
        with_body r.domain λ d.
          call (update_domain id.row d.description d.enabled) (error_text 500) λ _.
            audit (codes "policy.domain.update") id.text
              (apply_firewall env (codes "updated but failed to apply: ") ok_reply)

  unfoldable pub delete_policy_domain : Request → Handler
  delete_policy_domain r =
      with_id (r.url_param (codes "domainID")) (codes "invalid domain id") λ id.
        call (delete_domain id.row) (error_text 500) λ _.
          audit (codes "policy.domain.delete") id.text
            (apply_firewall env (codes "deleted but failed to apply: ") ok_reply)

unfoldable pub list_device_assignments : Handler
unfolding list_assignments
list_device_assignments s = (json 200 (assignments (list_assignments s.store)), s)

module _ (env : Env) where
  unfoldable pub assign : Request → Handler
  assign r = with_mac (extract_mac (r.url_param (codes "mac"))) λ mac. with_body r.policy_id λ id.
      call (assign_device mac id) (error_text 500) λ _.
        audit (codes "policy.device.assign") mac
          (apply_firewall env (codes "assigned but failed to apply: ") ok_reply)

  unfoldable pub unassign : Request → Handler
  unassign r = with_mac (extract_mac (r.url_param (codes "mac"))) λ mac.
      call (unassign_device mac) (error_text 500) λ _.
        audit (codes "policy.device.unassign") mac
          (apply_firewall env (codes "unassigned but failed to apply: ") ok_reply)
