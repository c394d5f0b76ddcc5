-- ===== src/Dns.antt =====
-- internal/services/dns.go: DNSService, the list of domains that dnsmasq resolves to nothing.
pub mod Import
use rpi_network_filter.Common.{
  ℕ, ◌+◌, ◌==◌, ltb, leb, Bool, true, false, not, ◌&&◌, ◌||◌, Option, none, some, List, [], ◌∷◌,
  ◌++◌, Text, codes, text_eq, map, length, Result, ok, err, any, keep, update_where, count_where,
  if◌then◌else◌,
}
use rpi_network_filter.Strings.{is_nil, to_lower, trim_space, has_prefix, fields, split}
use rpi_network_filter.Models.{DnsBlockEntry, BlockedDomain}
use rpi_network_filter.Db.{Db, Action, Error, domain_required, db, unique, order_by, text_lt}
use rpi_network_filter.Blocked.{normalize_domain, enabled_domains}
use rpi_network_filter.Firewall.Nftables.{unlines}
use rpi_network_filter.Firewall.Apply.{Effect, write_file, exec, perform_all}

unfoldable pub list_entries : Db → List DnsBlockEntry
list_entries s = order_by (λ a b. text_lt a.domain b.domain) s.dns_blocklist

unfoldable pub is_entry : Text → DnsBlockEntry → Bool
is_entry domain e = text_eq e.domain domain

-- The row of INSERT INTO dns_blocklist (domain, category).
abbrev pub entry_row : Text → Text → Db → DnsBlockEntry
entry_row domain category s = record {
  id = s.dns_blocklist_seq + 1;
  domain = domain;
  category = category;
  enabled = true;
  created_at = s.now;
}

unfoldable pub add_entry : Text → Text → Db → Db
add_entry domain category s = record s {
  dns_blocklist = s.dns_blocklist ++ entry_row domain category s ∷ [];
  dns_blocklist_seq = s.dns_blocklist_seq + 1;
}

unfoldable pub create_entry : Text → Text → Action ℕ
unfolding is_entry add_entry
create_entry text category s =
    let domain = normalize_domain text in
    if is_nil domain
    then (err domain_required, s)
    else if any (is_entry domain) s.dns_blocklist
    then (err (db unique), s)
    else (
      ok (s.dns_blocklist_seq + 1),
      add_entry domain (if is_nil category then codes "custom" else category) s,
    )

unfoldable pub delete_entry : ℕ → Action (Unit {0})
delete_entry id s =
    (ok tt, record s { dns_blocklist = keep (λ e. not (e.id == id)) s.dns_blocklist })

unfoldable pub toggle_entry : ℕ → Bool → Action (Unit {0})
toggle_entry id enabled s = (
  ok tt,
  record s {
    dns_blocklist =
        update_where (λ e. e.id == id) (λ e. record e { enabled = enabled }) s.dns_blocklist;
  },
)

-- bufio.Scanner: the lines up to one that does not fit its buffer of 64 KB.
unfoldable pub scan_lines : List Text → List Text
scan_lines [] = []
scan_lines (l ∷ ls) = let rest = scan_lines ls in if leb 65536 (length l) then [] else l ∷ rest

-- The field of a line that names a domain: that of a hosts file, or the only one.
unfoldable pub domain_field : List Text → Option Text
domain_field [] = none
domain_field (f ∷ []) = some f
domain_field (f ∷ g ∷ fs) =
    if text_eq f (codes "0.0.0.0") || text_eq f (codes "127.0.0.1") then some g else none

-- What a line asks to block, if anything.
unfoldable pub line_domain : Text → Option Text
unfolding domain_field fields to_lower trim_space has_prefix text_eq
line_domain text =
    let line = trim_space text in
    if is_nil line || has_prefix line (codes "#") then none else elim (domain_field (fields line)) [
      | none ↦ none
      | some field ↦
          let domain = to_lower (trim_space field) in
          if is_nil domain
            || text_eq domain (codes "localhost")
            || text_eq domain (codes "localhost.localdomain")
          then none
          else some domain
    ]

-- INSERT OR IGNORE: if the domain is there, only the counter advances, since SQLite draws an id first.
unfoldable pub insert_or_ignore : Text → Text → Db → Db
unfolding is_entry add_entry
insert_or_ignore category domain s =
    if any (is_entry domain) s.dns_blocklist
    then record s { dns_blocklist_seq = s.dns_blocklist_seq + 1 }
    else add_entry domain category s

-- The domains that lines ask to block, in order.
unfoldable pub line_domains : List Text → List Text
unfolding line_domain
line_domains [] = []
line_domains (l ∷ ls) =
    let rest = line_domains ls in elim (line_domain l) [ none ↦ rest | some d ↦ d ∷ rest ]

unfoldable pub insert_all : Text → List Text → Db → Db
unfolding insert_or_ignore
insert_all category [] s = s
insert_all category (d ∷ ds) s = insert_all category ds (insert_or_ignore category d s)

-- The count is that of the statements, those that were ignored included.
unfoldable pub import_domains : Text → Text → Action ℕ
unfolding insert_all line_domains scan_lines split
import_domains text category s =
    let domains = line_domains (scan_lines (split 10 text)) in
    (
      ok (length domains),
      insert_all (if is_nil category then codes "imported" else category) domains s,
    )

unfoldable pub get_count : Db → ℕ
get_count s = count_where (λ e. e.enabled) s.dns_blocklist

abbrev pub address_line : Text → Text
address_line domain = codes "address=/" ++ domain ++ codes "/0.0.0.0"

-- The hard-blocked domains, without the rows that have no normal form.
unfoldable pub hard_domains : List BlockedDomain → List Text
hard_domains ds = keep (λ d. not (is_nil d)) (map (λ d. normalize_domain d.domain) ds)

unfoldable pub blocklist_conf : Db → Text
unfolding unlines hard_domains enabled_domains
blocklist_conf s = unlines (
    codes "# Generated by netfilterd — do not edit"
    ∷ (map (λ e. address_line e.domain) (keep (λ e. e.enabled) s.dns_blocklist)
        ++ []
          ∷ codes "# Hard-blocked domains (never resolve)"
          ∷ map address_line (hard_domains (enabled_domains s))))

-- Apply of DNSService, as the effects it has.
unfoldable pub apply_blocklist : Bool → (Effect → Bool) → Db → Result Error (Unit {0}) × List Effect
unfolding perform_all blocklist_conf
apply_blocklist dry_run works s = perform_all dry_run works (
    write_file (codes "/etc/dnsmasq.d/blocklist.conf") (blocklist_conf s)
    ∷ exec (codes "systemctl" ∷ codes "reload" ∷ codes "dnsmasq" ∷ [])
    ∷ [])
