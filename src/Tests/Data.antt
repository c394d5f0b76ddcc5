-- ===== src/Tests/Data.antt =====
-- The sample data of the tests: a database as the migrations seed it, with a device, and a host.
use rpi_network_filter.Common.{refl, true, false, none, some, [], ◌∷◌, codes, text_eq, arith}
use rpi_network_filter.Validate.{valid_policy_name, valid_domain}
use rpi_network_filter.Models.{Policy, PolicyDomain, BlockedDomain}
use rpi_network_filter.Host.{Host, v4}
use rpi_network_filter.Db.{Db, Assignment}
use rpi_network_filter.Policy.{valid_mode}
use rpi_network_filter.Policy.Invariant.{IsConsistent}

abbrev pub strict_default : Policy
strict_default = record {
  id = 1;
  name = codes "Default";
  mode = codes "strict";
  description = [];
  is_default = true;
  created_at = 0;
}

abbrev pub tesla : Policy
tesla = record {
  id = 2;
  name = codes "Tesla";
  mode = codes "strict";
  description = [];
  is_default = false;
  created_at = 0;
}

abbrev pub connman : PolicyDomain
connman = record {
  id = 1;
  policy_id = 2;
  domain = codes "connman.tesla.services";
  description = [];
  enabled = true;
  resolved_ips = [];
  last_resolved_at = none;
  hit_count = 0;
  created_at = 0;
}

abbrev pub cdn_block : BlockedDomain
cdn_block = record {
  id = 1;
  domain = codes "tesla-cdn.com";
  match_type = codes "suffix";
  reason = codes "CDN";
  enabled = true;
  created_at = 0;
}

abbrev pub car : Assignment
car = record { device_mac = codes "4c:fc:aa:17:37:75"; policy_id = 2; assigned_at = 0 }

abbrev pub seeded : Db
seeded = record {
  now = 100;
  policies = strict_default ∷ tesla ∷ [];
  policies_seq = 2;
  policy_allowed_domains = connman ∷ [];
  policy_allowed_domains_seq = 1;
  device_policies = car ∷ [];
  blocked_domains = cdn_block ∷ [];
  blocked_domains_seq = 1;
  firewall_rules = [];
  firewall_rules_seq = 0;
  devices = [];
  devices_seq = 0;
  dns_blocklist = [];
  dns_blocklist_seq = 0;
  bandwidth_limits = [];
  bandwidth_limits_seq = 0;
  users = [];
  users_seq = 0;
  sessions = [];
  settings = [];
  audit_log = [];
  audit_log_seq = 0;
}

-- A host that knows one address.
abbrev pub sample_host : Host
sample_host = record {
  parse_ip = λ s. some (v4 s);
  parse_cidr = λ s. true;
  lookup_ip = λ s. some (v4 (codes "192.0.2.1") ∷ []);
  lookup_host = λ s. some (codes "192.0.2.1" ∷ []);
  encode_strings = λ l. [];
  decode_strings = λ t. none;
}

-- Opens what the tests evaluate.
unfoldable pub validation : Unit {0}
unfolding valid_policy_name valid_domain valid_mode text_eq
validation = tt

pub seeded-IsConsistent : IsConsistent seeded
unfolding validation
seeded-IsConsistent = record {
  policies = record {
    one_default = refl;
    ids = (refl, (refl, tt));
    seen = (omega arith, (omega arith, tt));
    names = (refl, (refl, tt));
    named = (refl, (refl, tt));
    modes = (refl, (refl, tt));
  };
  domains = record { owned = (refl, tt); valid = (refl, tt); mappings = (refl, tt) };
  devices = record { owned = (refl, tt); macs = (refl, tt) };
}
