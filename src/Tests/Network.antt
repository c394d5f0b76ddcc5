-- ===== src/Tests/Network.antt =====
-- A scan of a network, with the theorem at it.
use rpi_network_filter.Common.{◌≡◌, refl, Bool, true, false, some, [], ◌∷◌, ◌++◌, Text, codes, map}
use rpi_network_filter.Models.{Device}
use rpi_network_filter.Db.{Db}
use rpi_network_filter.Strings.{split, fields, to_upper}
use rpi_network_filter.Network.{
  scan, lease_fields, arp_fields, parse_dhcp_leases, parse_arp, upsert_all,
}
use rpi_network_filter.Network.Scan.{Extends, scan-Extends}
use rpi_network_filter.Tests.Data.{seeded, validation}

abbrev blocked : Device
blocked = record {
  id = 1;
  mac_address = codes "AA:BB:CC:00:11:22";
  ip_address = codes "192.168.4.7";
  hostname = codes "tv";
  alias = codes "television";
  first_seen = 0;
  last_seen = 0;
  is_blocked = true;
}

abbrev known : Db
known = record seeded { devices = blocked ∷ []; devices_seq = 1 }

abbrev leases : Text
leases = codes "1700000000 aa:bb:cc:00:11:22 192.168.4.9 * 01"

abbrev arp : Text
arp =
    codes "IP address HW type Flags HW address Mask Device"
    ++ 10 ∷ codes "192.168.4.8 0x1 0x2 aa:bb:cc:00:11:33 * wlan0"

opened : Unit {0}
unfolding validation scan split fields to_upper lease_fields arp_fields parse_dhcp_leases parse_arp
    upsert_all
opened = tt

abbrev summary : Device → Text × Text × Bool
summary d = (d.ip_address, d.hostname, d.is_blocked)

-- The device has a new address, and is blocked as before; another one joins it.
scanned :
    map summary (scan (codes "wlan0") (some leases) (some arp) known).devices
    ≡ (codes "192.168.4.9", codes "tv", true) ∷ (codes "192.168.4.8", [], false) ∷ []
unfolding opened
scanned = refl

scan-Extends_example : Extends known (scan (codes "wlan0") (some leases) (some arp) known)
scan-Extends_example = scan-Extends (codes "wlan0") (some leases) (some arp) known
