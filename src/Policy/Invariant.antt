-- ===== src/Policy/Invariant.antt =====
-- What the tables of policies always satisfy, for the statements of PolicyService to keep.
use rpi_network_filter.Common.{
  ℕ, ◌≤◌, ◌≡◌, Bool, true, ◌==◌, ◌&&◌, List, text_eq, All, All-mono, Unique, any, count_where,
}
use rpi_network_filter.Validate.{valid_policy_name, valid_domain}
use rpi_network_filter.Models.{Policy, PolicyDomain}
use rpi_network_filter.Db.{Db, Assignment}
use rpi_network_filter.Policy.{valid_mode}

abbrev pub same_id : Policy → Policy → Bool
same_id a b = a.id == b.id

abbrev pub same_name : Policy → Policy → Bool
same_name a b = text_eq a.name b.name

abbrev pub same_mapping : PolicyDomain → PolicyDomain → Bool
same_mapping a b = a.policy_id == b.policy_id && text_eq a.domain b.domain

abbrev pub same_mac : Assignment → Assignment → Bool
same_mac a b = text_eq a.device_mac b.device_mac

abbrev pub has_policy : List Policy → ℕ → Bool
has_policy ps id = any (λ p. p.id == id) ps

-- Exactly one default policy; ids and names stand for one policy each, no id is yet to be given,
-- and every policy has a valid name and mode.
pub record PoliciesOk (ps : List Policy) (seq : ℕ) : Type 0 where
  pub one_default : count_where (λ p. p.is_default) ps ≡ 1
  pub ids : Unique same_id ps
  pub seen : All (λ p. p.id ≤ seq) ps
  pub names : Unique same_name ps
  pub named : All (λ p. valid_policy_name p.name ≡ true) ps
  pub modes : All (λ p. valid_mode p.mode ≡ true) ps

-- Every allow-list entry belongs to a policy, holds a valid domain, and is the only one of its
-- policy for that domain.
pub record DomainsOk (ps : List Policy) (ds : List PolicyDomain) : Type 0 where
  pub owned : All (λ d. has_policy ps d.policy_id ≡ true) ds
  pub valid : All (λ d. valid_domain d.domain ≡ true) ds
  pub mappings : Unique same_mapping ds

-- Every assignment is to a policy, and is the only one of its device.
pub record DevicesOk (ps : List Policy) (rows : List Assignment) : Type 0 where
  pub owned : All (λ a. has_policy ps a.policy_id ≡ true) rows
  pub macs : Unique same_mac rows

pub record IsConsistent (s : Db) : Type 0 where
  pub policies : PoliciesOk s.policies s.policies_seq
  pub domains : DomainsOk s.policies s.policy_allowed_domains
  pub devices : DevicesOk s.policies s.device_policies

module _ {ps qs : List Policy}
    (kept : (id : ℕ) → has_policy ps id ≡ true → has_policy qs id ≡ true) where
  pub DomainsOk-mono : {ds : List PolicyDomain} → DomainsOk ps ds → DomainsOk qs ds
  DomainsOk-mono {ds} h = record {
    owned = All-mono (λ d. kept d.policy_id) ds h.owned;
    valid = h.valid;
    mappings = h.mappings;
  }

  pub DevicesOk-mono : {rows : List Assignment} → DevicesOk ps rows → DevicesOk qs rows
  DevicesOk-mono {rows} h = record {
    owned = All-mono (λ a. kept a.policy_id) rows h.owned;
    macs = h.macs;
  }
