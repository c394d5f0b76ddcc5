-- ===== src/Network.antt =====
-- internal/services/network.go: NetworkService, which finds the devices of the local network.
pub mod Scan
use rpi_network_filter.Common.{
  ℕ, ◌+◌, ltb, Bool, true, false, not, Option, none, some, List, [], ◌∷◌, ◌++◌, Text, codes,
  text_eq, drop, length, Result, ok, err, any, count_where, update_where, if◌then◌else◌,
}
use rpi_network_filter.Strings.{is_nil, to_upper, fields, split}
use rpi_network_filter.Dns.{scan_lines}
use rpi_network_filter.Models.{Device}
use rpi_network_filter.Db.{Db, Action, Error, db, null, order_by}

-- What a scan reads of a device.
pub record Found : Type 0 where
  pub mac : Text
  pub ip : Text
  pub host : Text

-- The map of a scan, as the list of its entries: `put` replaces the entry of an address.
unfoldable pub put : Found → List Found → List Found
put f [] = f ∷ []
put f (g ∷ fs) = let rest = put f fs in if text_eq g.mac f.mac then f ∷ fs else g ∷ rest

unfoldable pub put_if_absent : Found → List Found → List Found
unfolding put
put_if_absent f fs = if any (λ g. text_eq g.mac f.mac) fs then fs else put f fs

-- A line of the leases: expiry, address, IP, host name.
unfoldable pub lease_fields : List Text → Option Found
unfolding to_upper text_eq
lease_fields (expiry ∷ mac ∷ ip ∷ host ∷ more) =
    some
      (record { mac = to_upper mac; ip = ip; host = if text_eq host (codes "*") then [] else host })
lease_fields _ = none

-- A line of the ARP table: IP, type, flags, address, mask, interface.
unfoldable pub arp_fields : Text → List Text → Option Found
unfolding to_upper text_eq
arp_fields lan (ip ∷ kind ∷ flags ∷ mac ∷ mask ∷ device ∷ more) =
    if not (text_eq device lan)
    then none
    else some (record { mac = to_upper mac; ip = ip; host = [] })
arp_fields lan _ = none

unfoldable pub parse_dhcp_leases : List Text → List Found → List Found
unfolding lease_fields fields put
parse_dhcp_leases [] fs = fs
parse_dhcp_leases (l ∷ ls) fs =
    parse_dhcp_leases ls (elim (lease_fields (fields l)) [ none ↦ fs | some f ↦ put f fs ])

unfoldable pub parse_arp : Text → List Text → List Found → List Found
unfolding arp_fields fields put_if_absent
parse_arp lan [] fs = fs
parse_arp lan (l ∷ ls) fs =
    parse_arp lan ls (elim (arp_fields lan (fields l)) [ none ↦ fs | some f ↦ put_if_absent f fs ])

-- DO UPDATE SET: an empty host name leaves the old one.
unfoldable pub renew_device : Found → ℕ → Device → Device
renew_device f now d = record d {
  ip_address = f.ip;
  hostname = if is_nil f.host then d.hostname else f.host;
  last_seen = now;
}

unfoldable pub device_row : Found → Db → Device
device_row f s = record {
  id = s.devices_seq + 1;
  mac_address = f.mac;
  ip_address = f.ip;
  hostname = f.host;
  alias = [];
  first_seen = s.now;
  last_seen = s.now;
  is_blocked = false;
}

-- INSERT … ON CONFLICT(mac_address) DO UPDATE; the counter advances on a conflict, too.
unfoldable pub upsert_device : Found → Db → Db
unfolding renew_device device_row
upsert_device f s =
    if any (λ d. text_eq d.mac_address f.mac) s.devices
    then record s {
      devices = update_where (λ d. text_eq d.mac_address f.mac) (renew_device f s.now) s.devices;
      devices_seq = s.devices_seq + 1;
    }
    else record s { devices = s.devices ++ device_row f s ∷ []; devices_seq = s.devices_seq + 1 }

unfoldable pub upsert_all : List Found → Db → Db
unfolding upsert_device
upsert_all [] s = s
upsert_all (f ∷ fs) s = upsert_all fs (upsert_device f s)

-- The lines of a file that bufio.Scanner gives, none of one that cannot be opened.
abbrev pub file_lines : Option Text → List Text
file_lines none = []
file_lines (some text) = scan_lines (split 10 text)

-- `scan`, given the leases and the ARP table; the map is walked in the order of its entries.
unfoldable pub scan : Text → Option Text → Option Text → Db → Db
unfolding upsert_all parse_dhcp_leases parse_arp split scan_lines
scan lan leases arp s =
    upsert_all (parse_arp lan (drop 1 (file_lines arp)) (parse_dhcp_leases (file_lines leases) []))
      s

unfoldable pub list_devices : Db → List Device
list_devices s = order_by (λ a b. ltb b.last_seen a.last_seen) s.devices

unfoldable pub update_device : Text → Text → Bool → Action (Unit {0})
update_device mac alias blocked s = (
  ok tt,
  record s {
    devices =
        update_where (λ d. text_eq d.mac_address mac)
          (λ d. record d { alias = alias; is_blocked = blocked }) s.devices;
  },
)

-- Seen in the last five minutes.
abbrev pub is_online : ℕ → Device → Bool
is_online now d = ltb now (d.last_seen + 300)

-- The devices online and in total; the sum over an empty table is NULL, which is no number.
unfoldable pub get_device_count : Db → Result Error (ℕ × ℕ)
get_device_count s =
    if is_nil s.devices
    then err (db null)
    else ok (count_where (is_online s.now) s.devices, length s.devices)
