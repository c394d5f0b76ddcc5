-- ===== src/Tests/Dns.antt =====
-- An import of a hosts file, with the theorem at it.
use rpi_network_filter.Common.{◌≡◌, refl, [], ◌∷◌, ◌++◌, Text, codes}
use rpi_network_filter.Strings.{split, fields, to_lower, trim_space, has_prefix}
use rpi_network_filter.Dns.{import_domains, line_domains, scan_lines, line_domain}
use rpi_network_filter.Dns.Import.{asked_domains}
use rpi_network_filter.Tests.Data.{validation}

opened : Unit {0}
unfolding validation import_domains line_domains scan_lines line_domain split fields to_lower
    trim_space has_prefix
opened = tt

-- A comment, a hosts line, a domain alone, a line of three fields, the machine's own name.
abbrev hosts : Text
hosts =
    codes "# ads"
    ++ 10 ∷ codes "0.0.0.0 Ads.example"
    ++ 10 ∷ codes "tracker.example "
    ++ 10 ∷ codes "a b c"
    ++ 10 ∷ codes "127.0.0.1 localhost"

hosts_domains : asked_domains hosts ≡ codes "ads.example" ∷ codes "tracker.example" ∷ []
unfolding opened
hosts_domains = refl
