-- ===== src/Policy/Steps.antt =====
-- Every sequence of calls on PolicyService keeps its tables consistent.
use rpi_network_filter.Common.{ℕ, Bool, List, [], ◌∷◌, Text}
use rpi_network_filter.Host.{Host}
use rpi_network_filter.Models.{Policy, PolicyDomain}
use rpi_network_filter.Db.{Db}
use rpi_network_filter.Policy.{
  create_policy, update_policy, delete_policy, create_domain, update_domain, delete_domain,
  resolve_domain, refresh_all, assign_device, unassign_device,
}
use rpi_network_filter.Policy.Invariant.{IsConsistent}
use rpi_network_filter.Policy.Policies.{
  create_policy-IsConsistent, update_policy-IsConsistent, delete_policy-IsConsistent,
}
use rpi_network_filter.Policy.Domains.{
  create_domain-IsConsistent, update_domain-IsConsistent, delete_domain-IsConsistent,
  resolve_domain-IsConsistent, refresh_all-IsConsistent, assign_device-IsConsistent,
  unassign_device-IsConsistent,
}

-- A call that may change the tables, with its arguments.
pub data Call : Type 0 where
  create : Policy → Call
  update : ℕ → Policy → Call
  delete : ℕ → Call
  create_domain_ : ℕ → PolicyDomain → Call
  update_domain_ : ℕ → Text → Bool → Call
  delete_domain_ : ℕ → Call
  resolve : Text → Call
  refresh : Call
  assign : Text → ℕ → Call
  unassign : Text → Call
  -- time goes by between the calls
  wait : ℕ → Call

module _ (host : Host) where
  -- The state behind a call, whether it returned an error or not.
  unfoldable pub run : Call → Db → Db
  run (create p) s = (create_policy p s).1
  run (update id p) s = (update_policy id p s).1
  run (delete id) s = (delete_policy id s).1
  run (create_domain_ id d) s = (create_domain id d s).1
  run (update_domain_ id t e) s = (update_domain id t e s).1
  run (delete_domain_ id) s = (delete_domain id s).1
  run (resolve t) s = resolve_domain host t s
  run refresh s = refresh_all host s
  run (assign t id) s = (assign_device t id s).1
  run (unassign t) s = (unassign_device t s).1
  run (wait now) s = record s { now = now }

  unfoldable pub run_all : List Call → Db → Db
  unfolding run
  run_all [] s = s
  run_all (c ∷ cs) s = run_all cs (run c s)

  run-IsConsistent : (c : Call) (s : Db) → IsConsistent s → IsConsistent (run c s)
  unfolding run
  run-IsConsistent (create p) s h = create_policy-IsConsistent p s h
  run-IsConsistent (update id p) s h = update_policy-IsConsistent id p s h
  run-IsConsistent (delete id) s h = delete_policy-IsConsistent id s h
  run-IsConsistent (create_domain_ id d) s h = create_domain-IsConsistent id d s h
  run-IsConsistent (update_domain_ id t e) s h = update_domain-IsConsistent id t e s h
  run-IsConsistent (delete_domain_ id) s h = delete_domain-IsConsistent id s h
  run-IsConsistent (resolve t) s h = resolve_domain-IsConsistent host t s h
  run-IsConsistent refresh s h = refresh_all-IsConsistent host s h
  run-IsConsistent (assign t id) s h = assign_device-IsConsistent t id s h
  run-IsConsistent (unassign t) s h = unassign_device-IsConsistent t s h
  run-IsConsistent (wait now) s h = record {
    policies = h.policies;
    domains = h.domains;
    devices = h.devices;
  }

  -- From consistent tables, whatever calls on PolicyService are made, failing ones included, the
  -- tables are consistent: there is exactly one default policy, ids and names stand for one policy
  -- each, names and modes are valid, every allow-list entry holds a valid domain and belongs to a
  -- policy that has it once, and every assignment is to a policy and the only one of its device.
  pub run_all-IsConsistent :
      (cs : List Call) (s : Db) → IsConsistent s → IsConsistent (run_all cs s)
  unfolding run_all
  run_all-IsConsistent [] s h = h
  run_all-IsConsistent (c ∷ cs) s h = run_all-IsConsistent cs (run c s) (run-IsConsistent c s h)
