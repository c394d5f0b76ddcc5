-- ===== src/Dns/Import.antt =====
-- What an import of a list of domains does to the table.
use rpi_network_filter.Common.{Bool, List, Text, text_eq, any}
use rpi_network_filter.Models.{DnsBlockEntry}
use rpi_network_filter.Db.{Db}
use rpi_network_filter.Strings.{split}
use rpi_network_filter.Dns.{is_entry, line_domains, scan_lines}

abbrev pub same_entry : DnsBlockEntry → DnsBlockEntry → Bool
same_entry a b = text_eq a.domain b.domain

-- Whether a domain stands in the table.
abbrev pub is_listed : Text → Db → Bool
is_listed domain s = any (is_entry domain) s.dns_blocklist

-- The domains that a text asks to block.
abbrev pub asked_domains : Text → List Text
asked_domains text = line_domains (scan_lines (split 10 text))
