-- ===== src/Tests/Firewall.antt =====
-- FirewallService on a database with a blocked device and a rule, with its theorems at such inputs.
use rpi_network_filter.Common.{
  ◌≡◌, refl, sym, ap, inl, Bool, Bool-eq_of_iff, text_eq_iff, true, false, Option, none, some, [],
  ◌∷◌, ◌++◌, Text, codes, text_eq, all, All, arith, ok, if◌then◌else◌,
}
use rpi_network_filter.Config.{defaults}
use rpi_network_filter.Host.{Host, HostLaws, Ip, v4, address_char}
use rpi_network_filter.Strings.{
  to_lower, trim_space, contains_char, join, replace_char, split, has_prefix, trim_prefix,
}
use rpi_network_filter.Validate.{
  valid_mac, valid_ipv4, valid_protocol, valid_port_spec, valid_ip_or_cidr,
}
use rpi_network_filter.Models.{Device, PolicyDomain, AllowedDomain, FirewallRule}
use rpi_network_filter.Db.{Db}
use rpi_network_filter.Policy.{default_policy, create_domain}
use rpi_network_filter.Firewall.{
  PolicySnapshot, create_allowed_domain, blocked_macs, load_policy_snapshot,
}
use rpi_network_filter.Firewall.ActiveSet.{
  list_active_set_ips, printed_ips, element_ips, line_ips, trim_brace, before_space,
}
use rpi_network_filter.Firewall.Legacy.{request, create_allowed_domain-create_domain}
use rpi_network_filter.Firewall.Rules.{build_rule_lines}
use rpi_network_filter.Firewall.Rules.Lines.{line_char, IsLine, build_rule_lines-IsLine}
use rpi_network_filter.Firewall.Nftables.{set_elements}
use rpi_network_filter.Firewall.Ruleset.{forward_lines}
use rpi_network_filter.Firewall.Ruleset.Forward.{
  Verdict, accepted, dropped, Nft, NftLaws, first_verdict, forward_lines-first_verdict,
}
use mathlib.Core.List.{append_cancel_right}
use rpi_network_filter.Firewall.Apply.{apply}
use rpi_network_filter.Firewall.Apply.Effects.{loading, IsOutcome, apply-IsOutcome}
use rpi_network_filter.Tests.Data.{strict_default, connman, seeded, validation}

abbrev address : Text
address = codes "192.0.2.1"

-- A host on which one address is one, whatever name is looked up.
abbrev parse : Text → Option Ip
parse s = if text_eq s address then some (v4 address) else none

abbrev one_address : Host
one_address = record {
  parse_ip = parse;
  parse_cidr = λ s. false;
  lookup_ip = λ s. some (v4 address ∷ []);
  lookup_host = λ s. some (address ∷ []);
  encode_strings = λ l. [];
  decode_strings = λ t. some ((codes " 192.0.2.1") ∷ codes "x" ∷ address ∷ []);
}

plain : (s : Text) → all line_char s ≡ true → IsLine s
plain [] h = tt
plain (c ∷ s) h = (ground arith, plain s (ground arith))

address-chars : All (λ c. address_char c ≡ true) address
unfolding address_char
address-chars = (refl, (refl, (refl, (refl, (refl, (refl, (refl, (refl, (refl, tt)))))))))

one_address-laws : HostLaws one_address
one_address-laws = record {
  lookup_ip_chars =
      λ s ips h. let same : v4 address ∷ [] ≡ ips = cc h in rw (← same) (address-chars, tt);
}

abbrev guest : Device
guest = record {
  id = 1;
  mac_address = codes "AA:BB:CC:00:11:22";
  ip_address = codes "192.168.4.7";
  hostname = [];
  alias = [];
  first_seen = 0;
  last_seen = 0;
  is_blocked = true;
}

abbrev web : FirewallRule
web = record {
  id = 1;
  description = codes "the \"web\"";
  direction = codes "forward";
  protocol = codes "tcp";
  source_ip = [];
  dest_ip = codes "example.org";
  dest_port = codes "443";
  action = codes "accept";
  device_mac = [];
  enabled = true;
  priority = 100;
  created_at = 0;
}

abbrev guarded : Db
guarded = record seeded { devices = guest ∷ []; firewall_rules = web ∷ [] }

abbrev resolved : PolicyDomain
resolved = record connman { resolved_ips = codes "[]" }

opened : Unit {0}
unfolding validation build_rule_lines set_elements valid_ipv4 trim_space valid_mac
    create_allowed_domain default_policy valid_protocol valid_port_spec contains_char
    valid_ip_or_cidr join replace_char
opened = tt

guest-valid : valid_mac guest.mac_address ≡ true
unfolding opened
guest-valid = refl

-- nft on the lines of the opening and of the drops: a packet has a state and a sender.
abbrev ether : Text → Text
ether mac = codes "        ether saddr " ++ (mac ++ codes " drop")

abbrev decide : Text → Bool × Text → Option Verdict
decide line (established, sender) =
    if text_eq line (codes "        ct state established,related accept")
    then if established then some accepted else none
    else if text_eq line (ether sender)
    then some dropped
    else none

abbrev sample_nft : Nft
sample_nft = record {
  Packet = Bool × Text;
  is_established = λ p. p.0;
  sender = λ p. p.1;
  verdict = decide;
}

behind_ether :
    (s t : Text) → codes "        ether saddr " ++ s ≡ codes "        ether saddr " ++ t → s ≡ t
behind_ether s t h = cc

ether-injective : (mac sender : Text) → ether mac ≡ ether sender → mac ≡ sender
ether-injective mac sender h =
    append_cancel_right mac sender (codes " drop")
      (behind_ether (mac ++ codes " drop") (sender ++ codes " drop") h)

ether-text_eq : (mac sender : Text) → text_eq (ether mac) (ether sender) ≡ text_eq sender mac
ether-text_eq mac sender =
    Bool-eq_of_iff (text_eq (ether mac) (ether sender)) (text_eq sender mac) (
      λ h.
          let same = ether-injective mac sender ((text_eq_iff (ether mac) (ether sender)).0 h) in
          (text_eq_iff sender mac).1 (sym same),
      λ h.
          let same = (text_eq_iff sender mac).0 h in
          (text_eq_iff (ether mac) (ether sender)).1 (ap ether (sym same)),
    )

sample_nft_laws : NftLaws sample_nft
unfolding text_eq
sample_nft_laws = record {
  chain_line = λ p. refl;
  hook_line = λ p. refl;
  state_line = λ p. refl;
  ether_line = λ mac p. rw (ether-text_eq (to_lower mac) p.1) refl;
}

abbrev guest_address : Text
guest_address = codes "aa:bb:cc:00:11:22"

guest-sender : guest_address ≡ to_lower guest.mac_address
unfolding opened to_lower
guest-sender = refl

forward_lines-first_verdict_example :
    first_verdict sample_nft
      (forward_lines (blocked_macs guarded) (load_policy_snapshot guarded))
      (false, guest_address)
    ≡ some (if sample_nft.is_established (false, guest_address) then accepted else dropped)
forward_lines-first_verdict_example =
    forward_lines-first_verdict sample_nft sample_nft_laws (false, guest_address) guarded
      (load_policy_snapshot guarded) guest (inl refl) refl guest-valid guest-sender

abbrev taken : PolicySnapshot
taken = load_policy_snapshot seeded

-- A name that resolves, a description with quotes.
web_lines :
    build_rule_lines one_address web
    ≡ codes
        "tcp ip daddr 192.0.2.1 dport 443 log prefix \"[NETFILTER-ACCEPT] \" accept comment \"the 'web' (example.org)\""
      ∷ []
unfolding opened
web_lines = refl

build_rule_lines-IsLine_example : All IsLine (build_rule_lines one_address web)
build_rule_lines-IsLine_example = build_rule_lines-IsLine one_address one_address-laws web (
  plain web.description refl,
  plain web.source_ip refl,
  plain web.dest_ip refl,
  plain web.action refl,
)

-- Blanks, repetitions and what is no address.
resolved_elements : set_elements one_address (resolved ∷ []) ≡ address ∷ []
unfolding opened
resolved_elements = refl

abbrev legacy : AllowedDomain
legacy = record {
  id = 0;
  domain = codes "Example.org";
  description = [];
  enabled = true;
  created_at = 0;
}

seeded-default : default_policy seeded ≡ ok strict_default
unfolding opened
seeded-default = refl

create_allowed_domain-create_domain_example :
    create_allowed_domain legacy seeded ≡ create_domain strict_default.id (request legacy) seeded
create_allowed_domain-create_domain_example =
    create_allowed_domain-create_domain legacy seeded strict_default seeded-default

apply-IsOutcome_example :
    IsOutcome false
      (λ e. false)
      (loading one_address defaults guarded)
      (apply one_address defaults (λ e. false) guarded)
apply-IsOutcome_example = apply-IsOutcome one_address defaults (λ e. false) guarded

abbrev listing : Text
listing =
    codes "set pol_1_ips {"
    ++ 10 ∷ codes "  elements = { 1.2.3.4 timeout 30d expires 29d,"
    ++ 10 ∷ codes "   5.6.7.8 }"
    ++ 10 ∷ codes "}"

-- The brace that closes the elements is taken off before the loop looks for it, so that it reads on.
listed_ips :
    list_active_set_ips (λ args. some listing) 0 seeded ≡ codes "1.2.3.4" ∷ codes "5.6.7.8" ∷ []
unfolding opened list_active_set_ips printed_ips element_ips line_ips trim_brace before_space split
    has_prefix trim_prefix
listed_ips = refl
