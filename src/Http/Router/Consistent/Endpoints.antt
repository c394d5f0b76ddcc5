-- ===== src/Http/Router/Consistent/Endpoints.antt =====
-- The endpoints of policies.go and firewall.go keep the tables of policies consistent.
use rpi_network_filter.Common.{inl, inr, true, Text}
use rpi_network_filter.Strings.{is_nil}
use rpi_network_filter.Models.{AllowedDomain}
use rpi_network_filter.Policy.{
  get_policy, create_policy, update_policy, delete_policy, create_domain, update_domain,
  delete_domain, assign_device, unassign_device,
}
use rpi_network_filter.Policy.Policies.{
  create_policy-IsConsistent, update_policy-IsConsistent, delete_policy-IsConsistent,
}
use rpi_network_filter.Policy.Domains.{
  create_domain-IsConsistent, update_domain-IsConsistent, delete_domain-IsConsistent,
  resolve_domain-IsConsistent, assign_device-IsConsistent, unassign_device-IsConsistent,
}
use rpi_network_filter.Firewall.Apply.Effects.{Result-cases}
use rpi_network_filter.Http.{Env, Request, Handler}
use rpi_network_filter.Http.Policies as Policies
use rpi_network_filter.Http.Firewall as Firewall
use rpi_network_filter.Http.Router.{
  FilterEndpoint, assign_device_, unassign_device_, policy_list, policy_create, policy_assignments,
  policy_get, policy_update, policy_delete, policy_domains, policy_domain_create,
  policy_domain_update, policy_domain_delete, rule_list, rule_create, rule_update, rule_delete,
  allowed_list, allowed_create, allowed_update, allowed_delete, allowed_ips, handle_filter,
}
use rpi_network_filter.Http.Router.Consistent.{
  Keeps, same-Keeps, answer-Keeps, if-Keeps, with_body-Keeps, call-Keeps, with_id-Keeps,
  with_mac-Keeps, audit-Keeps, apply_firewall-Keeps,
}
use rpi_network_filter.Firewall.{
  create_rule, update_rule, delete_rule, create_allowed_domain, update_allowed_domain,
  delete_allowed_domain,
}
use rpi_network_filter.Http.Router.Consistent.Services.{
  frame, create_allowed_domain-IsConsistent, update_allowed_domain-IsConsistent,
  delete_allowed_domain-IsConsistent, create_rule-frame, update_rule-frame, delete_rule-frame,
}

module _ (env : Env) where
  pub resolve-Keeps :
      (domain : Text) (k : Handler) → Keeps k → Keeps (Policies.resolve env domain k)
  unfolding Policies.resolve
  resolve-Keeps domain k h = record {
    kept = λ s c. h.kept _ (resolve_domain-IsConsistent env.host domain s.store c);
  }

module _ (r : Request) where
  policies_get-Keeps : Keeps (Policies.get r)
  unfolding Policies.get
  policies_get-Keeps = with_id-Keeps _ _ _ λ id. record {
    kept = λ s c. elim (Result-cases (get_policy s.store id.row)) [
      | inl (p, e) ↦ rw (e, Policies.get) c
      | inr (x, e) ↦ rw (e, Policies.get) c
    ];
  }

  policies_create-Keeps : Keeps (Policies.create r)
  unfolding Policies.create
  policies_create-Keeps = with_body-Keeps r.policy _ λ p.
      call-Keeps (create_policy p) _ _ (record { kept = create_policy-IsConsistent p })
        λ id. audit-Keeps _ p.name _ (same-Keeps _)

  policies_domains-Keeps : Keeps (Policies.list_policy_domains r)
  unfolding Policies.list_policy_domains
  policies_domains-Keeps = with_id-Keeps _ _ _ λ id. same-Keeps _

module _ (env : Env) (r : Request) where
  policies_update-Keeps : Keeps (Policies.update env r)
  unfolding Policies.update
  policies_update-Keeps = with_id-Keeps _ _ _ λ id. with_body-Keeps r.policy _ λ p.
      call-Keeps (update_policy id.row p) _ _
        (record { kept = update_policy-IsConsistent id.row p })
        λ row. audit-Keeps _ _ _ (apply_firewall-Keeps env _ _)

  policies_delete-Keeps : Keeps (Policies.delete env r)
  unfolding Policies.delete
  policies_delete-Keeps = with_id-Keeps _ _ _ λ id.
      call-Keeps (delete_policy id.row) _ _ (record { kept = delete_policy-IsConsistent id.row })
        λ row. audit-Keeps _ _ _ (apply_firewall-Keeps env _ _)

  policies_create_policy_domain-Keeps : Keeps (Policies.create_policy_domain env r)
  unfolding Policies.create_policy_domain
  policies_create_policy_domain-Keeps = with_id-Keeps _ _ _ λ id. with_body-Keeps r.domain _ λ d.
      call-Keeps (create_domain id.row (record d { enabled = true })) _ _
        (record { kept = create_domain-IsConsistent id.row (record d { enabled = true }) })
        λ row. audit-Keeps _ _ _ (resolve-Keeps env d.domain _ (apply_firewall-Keeps env _ _))

  policies_update_policy_domain-Keeps : Keeps (Policies.update_policy_domain env r)
  unfolding Policies.update_policy_domain
  policies_update_policy_domain-Keeps = with_id-Keeps _ _ _ λ id. with_body-Keeps r.domain _ λ d.
      call-Keeps (update_domain id.row d.description d.enabled) _ _
        (record { kept = update_domain-IsConsistent id.row d.description d.enabled })
        λ row. audit-Keeps _ _ _ (apply_firewall-Keeps env _ _)

  policies_delete_policy_domain-Keeps : Keeps (Policies.delete_policy_domain env r)
  unfolding Policies.delete_policy_domain
  policies_delete_policy_domain-Keeps = with_id-Keeps _ _ _ λ id.
      call-Keeps (delete_domain id.row) _ _ (record { kept = delete_domain-IsConsistent id.row })
        λ row. audit-Keeps _ _ _ (apply_firewall-Keeps env _ _)

  policies_assign-Keeps : Keeps (Policies.assign env r)
  unfolding Policies.assign
  policies_assign-Keeps = with_mac-Keeps _ _ λ mac. with_body-Keeps r.policy_id _ λ id.
      call-Keeps (assign_device mac id) _ _ (record { kept = assign_device-IsConsistent mac id })
        λ row. audit-Keeps _ _ _ (apply_firewall-Keeps env _ _)

  policies_unassign-Keeps : Keeps (Policies.unassign env r)
  unfolding Policies.unassign
  policies_unassign-Keeps = with_mac-Keeps _ _ λ mac.
      call-Keeps (unassign_device mac) _ _ (record { kept = unassign_device-IsConsistent mac })
        λ row. audit-Keeps _ _ _ (apply_firewall-Keeps env _ _)

module _ (env : Env) (r : Request) where
  firewall_create_allowed_row-Keeps :
      (d : AllowedDomain) → Keeps (Firewall.create_allowed_row env d)
  unfolding Firewall.create_allowed_row
  firewall_create_allowed_row-Keeps d =
      call-Keeps (create_allowed_domain (record d { enabled = true })) _ _
        (record { kept = create_allowed_domain-IsConsistent (record d { enabled = true }) })
        λ row. audit-Keeps _ _ _ (resolve-Keeps env d.domain _ (apply_firewall-Keeps env _ _))

  firewall_update_allowed-Keeps : Keeps (Firewall.update_allowed env r)
  unfolding Firewall.update_allowed
  firewall_update_allowed-Keeps = with_id-Keeps _ _ _ λ id. with_body-Keeps r.allowed_domain _ λ d.
      call-Keeps (update_allowed_domain id.row d) _ _
        (record { kept = update_allowed_domain-IsConsistent id.row d })
        λ row. audit-Keeps _ _ _ (apply_firewall-Keeps env _ _)

  firewall_delete_allowed-Keeps : Keeps (Firewall.delete_allowed env r)
  unfolding Firewall.delete_allowed
  firewall_delete_allowed-Keeps = with_id-Keeps _ _ _ λ id.
      call-Keeps (delete_allowed_domain id.row) _ _
        (record { kept = delete_allowed_domain-IsConsistent id.row })
        λ row. audit-Keeps _ _ _ (apply_firewall-Keeps env _ _)

  firewall_create-Keeps : Keeps (Firewall.create env r)
  unfolding Firewall.create
  firewall_create-Keeps = with_body-Keeps r.rule _ λ q.
      call-Keeps (create_rule q) _ _ (frame (create_rule q) (create_rule-frame q))
        λ row. audit-Keeps _ _ _ (apply_firewall-Keeps env _ _)

  firewall_update-Keeps : Keeps (Firewall.update env r)
  unfolding Firewall.update
  firewall_update-Keeps = with_id-Keeps _ _ _ λ id. with_body-Keeps r.rule _ λ q.
      call-Keeps (update_rule id.row q) _ _
        (frame (update_rule id.row q) (update_rule-frame id.row q))
        λ row. audit-Keeps _ _ _ (apply_firewall-Keeps env _ _)

  firewall_delete-Keeps : Keeps (Firewall.delete env r)
  unfolding Firewall.delete
  firewall_delete-Keeps = with_id-Keeps _ _ _ λ id.
      call-Keeps (delete_rule id.row) _ _ (frame (delete_rule id.row) (delete_rule-frame id.row))
        λ row. audit-Keeps _ _ _ (apply_firewall-Keeps env _ _)

  firewall_create_allowed-Keeps : Keeps (Firewall.create_allowed env r)
  unfolding Firewall.create_allowed
  firewall_create_allowed-Keeps =
      with_body-Keeps r.allowed_domain _
        λ d. if-Keeps (is_nil d.domain) _ _ (answer-Keeps _) (firewall_create_allowed_row-Keeps d)

  pub handle_filter-Keeps : (e : FilterEndpoint) → Keeps (handle_filter env r e)
  unfolding handle_filter Policies.list Policies.list_device_assignments Firewall.list
      Firewall.list_allowed Firewall.allowed_domain_ips
  handle_filter-Keeps assign_device_ = policies_assign-Keeps env r
  handle_filter-Keeps unassign_device_ = policies_unassign-Keeps env r
  handle_filter-Keeps policy_list = same-Keeps _
  handle_filter-Keeps policy_create = policies_create-Keeps r
  handle_filter-Keeps policy_assignments = same-Keeps _
  handle_filter-Keeps policy_get = policies_get-Keeps r
  handle_filter-Keeps policy_update = policies_update-Keeps env r
  handle_filter-Keeps policy_delete = policies_delete-Keeps env r
  handle_filter-Keeps policy_domains = policies_domains-Keeps r
  handle_filter-Keeps policy_domain_create = policies_create_policy_domain-Keeps env r
  handle_filter-Keeps policy_domain_update = policies_update_policy_domain-Keeps env r
  handle_filter-Keeps policy_domain_delete = policies_delete_policy_domain-Keeps env r
  handle_filter-Keeps rule_list = same-Keeps _
  handle_filter-Keeps rule_create = firewall_create-Keeps
  handle_filter-Keeps rule_update = firewall_update-Keeps
  handle_filter-Keeps rule_delete = firewall_delete-Keeps
  handle_filter-Keeps allowed_list = same-Keeps _
  handle_filter-Keeps allowed_create = firewall_create_allowed-Keeps
  handle_filter-Keeps allowed_update = firewall_update_allowed-Keeps
  handle_filter-Keeps allowed_delete = firewall_delete_allowed-Keeps
  handle_filter-Keeps allowed_ips = same-Keeps _
