-- ===== src/Traffic/Lines.antt =====
-- internal/services/trafficlog.go: parseNfLine and parseDnsLine, the lines of the kernel's log and of
-- dnsmasq's.
use rpi_network_filter.Common.{
  ℕ, ◌==◌, Bool, not, ◌&&◌, ◌||◌, some, [], ◌∷◌, Text, codes, text_eq, if◌then◌else◌,
}
use rpi_network_filter.Regexp.{within}
use rpi_network_filter.Regexp.Submatch.{
  Pattern, class, greedy, lazy, seq, alt, group, find_submatch, literal, opt, plus, space,
  not_space, dot, decimal,
}
use rpi_network_filter.Strings.{contains, has_suffix}
use rpi_network_filter.Traffic.{TrafficLog, cached_domain, remember, insert_entry}

-- \[NETFILTER.*?\].*SRC=(\S+)\s.*DST=(\S+)\s.*PROTO=(\S+)
unfoldable pub nflog_re : Pattern
unfolding literal plus
nflog_re = seq (literal (codes "[NETFILTER")) (
    seq (lazy dot) (
      seq (literal (codes "]")) (
        seq (greedy dot) (
          seq (literal (codes "SRC=")) (
            seq (group (plus not_space)) (
              seq (class space) (
                seq (greedy dot) (
                  seq (literal (codes "DST=")) (
                    seq (group (plus not_space)) (
                      seq (class space) (
                        seq (greedy dot)
                          (seq (literal (codes "PROTO=")) (group (plus not_space))))))))))))))

-- DPT=(\d+)
unfoldable pub nflog_port_re : Pattern
unfolding literal plus
nflog_port_re = seq (literal (codes "DPT=")) (group (plus decimal))

-- [0-9a-f:]
abbrev pub mac_char : ℕ → Bool
mac_char c = within b'0' b'9' c || within b'a' b'f' c || c == b':'

-- MAC=([0-9a-f:]+)
unfoldable pub nflog_mac_re : Pattern
unfolding literal plus
nflog_mac_re = seq (literal (codes "MAC=")) (group (plus mac_char))

-- [^\s\]]
abbrev pub policy_char : ℕ → Bool
policy_char c = not_space c && not (c == b']')

-- \[NETFILTER-(?:ACCEPT|DROP)(?:-[A-Z]+)?\s+pol=([^\s\]]+)\]
unfoldable pub nflog_policy_re : Pattern
unfolding literal plus opt
nflog_policy_re = seq (literal (codes "[NETFILTER-")) (
    seq (alt (literal (codes "ACCEPT")) (literal (codes "DROP"))) (
      seq (opt (seq (literal (codes "-")) (plus (λ c. within b'A' b'Z' c)))) (
        seq (plus space)
          (seq (literal (codes "pol=")) (seq (group (plus policy_char)) (literal (codes "]")))))))

-- query\[(\S+)\] (\S+) from (\S+)
unfoldable pub dns_query_re : Pattern
unfolding literal plus
dns_query_re = seq (literal (codes "query[")) (
    seq (group (plus not_space)) (
      seq (literal (codes "] "))
        (seq (group (plus not_space)) (seq (literal (codes " from ")) (group (plus not_space))))))

-- reply (\S+) is (\d+\.\d+\.\d+\.\d+)
unfoldable pub dns_reply_re : Pattern
unfolding literal plus
dns_reply_re =
    let dot_number = seq (literal (codes ".")) (plus decimal) in
    seq (literal (codes "reply ")) (
      seq (group (plus not_space)) (
        seq (literal (codes " is "))
          (group (seq (plus decimal) (seq dot_number (seq dot_number dot_number))))))

-- The first group of a match, the empty text without one.
unfoldable pub first_group : Pattern → Text → Text
unfolding find_submatch
first_group r s = elim (find_submatch r s) [ some (g ∷ gs) ↦ g | _ ↦ [] ]

unfoldable pub nf_action : Text → Text
unfolding contains
nf_action message =
    if contains message (codes "[NETFILTER-DROP")
    then codes "blocked"
    else if contains message (codes "[NETFILTER-ACCEPT")
    then codes "allowed"
    else codes "logged"

unfoldable pub nf_policy : Text → Text
unfolding contains first_group nflog_policy_re
nf_policy message =
    if contains message (codes "[NETFILTER-DROP-DOH]")
    then codes "DoH chokepoint"
    else if contains message (codes "[NETFILTER-DROP-DOT]")
    then codes "DoT chokepoint"
    else first_group nflog_policy_re message

unfoldable pub parse_nf_line : Text → TrafficLog → TrafficLog
unfolding find_submatch nflog_re first_group nflog_port_re nflog_mac_re nf_action nf_policy
    cached_domain insert_entry
parse_nf_line message s = elim (find_submatch nflog_re message) [
  | some (src ∷ dst ∷ protocol ∷ more) ↦
      insert_entry
        (record {
          id = 0;
          timestamp = 0;
          src_ip = src;
          dst_ip = dst;
          dst_port = first_group nflog_port_re message;
          protocol = protocol;
          action = nf_action message;
          src_mac = first_group nflog_mac_re message;
          domain = cached_domain dst s.dns_cache;
          source = codes "forward";
          policy = nf_policy message;
        })
        s
  | _ ↦ s
]

-- The row of a query; none for the machine's own names.
unfoldable pub log_query : Text → Text → TrafficLog → TrafficLog
unfolding text_eq has_suffix insert_entry
log_query domain client s =
    if text_eq domain (codes "localhost") || has_suffix domain (codes ".local")
    then s
    else insert_entry
        (record {
          id = 0;
          timestamp = 0;
          src_ip = client;
          dst_ip = [];
          dst_port = codes "53";
          protocol = codes "DNS";
          action = codes "query";
          src_mac = [];
          domain = domain;
          source = codes "dns";
          policy = [];
        })
        s

unfoldable pub parse_dns_line : Text → TrafficLog → TrafficLog
unfolding find_submatch dns_query_re dns_reply_re log_query remember
parse_dns_line message s = elim (find_submatch dns_query_re message) [
  | some (kind ∷ domain ∷ client ∷ more) ↦ log_query domain client s
  | _ ↦ elim (find_submatch dns_reply_re message) [
    | some (domain ∷ ip ∷ more) ↦ record s { dns_cache = remember ip domain s.dns_cache }
    | _ ↦ s
  ]
]
