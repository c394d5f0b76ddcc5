-- ===== src/Network/Scan.antt =====
-- What a scan leaves of the devices that are known.
use rpi_network_filter.Common.{
  ℕ, ◌≡◌, refl, sym, ap, ◌∙◌, inl, inr, Bool, false, Bool-cases, Option, List, [], ◌∷◌, ◌++◌, Text,
  text_eq, map, any, drop, update_where, All, All-append,
}
use mathlib.Core.List.{append_assoc, append-nil}
use rpi_network_filter.Models.{Device}
use rpi_network_filter.Db.{Db}
use rpi_network_filter.Network.{
  Found, renew_device, device_row, upsert_device, upsert_all, scan, file_lines, parse_arp,
  parse_dhcp_leases,
}

-- A device without what a scan renews.
abbrev pub settings : Device → Device
settings d = record d { ip_address = []; hostname = []; last_seen = 0 }

abbrev IsNew : List Device → Type 0
IsNew new = All (λ d. d.is_blocked ≡ false) new

-- The devices of a state, before others, with the settings they have in an earlier one.
abbrev pub Extends : Db → Db → Type 0
Extends s s' =
    (new : List Device) × (map settings s'.devices ≡ map settings s.devices ++ new) × IsNew new

map-update :
    (q : Device → Bool) (f : Found) (now : ℕ) (ds : List Device)
    → map settings (update_where q (renew_device f now) ds) ≡ map settings ds
unfolding renew_device
map-update q f now [] = refl
map-update q f now (d ∷ ds) = elim (Bool-cases (q d)) [
  | inl e ↦ rw e (ap (λ r. settings d ∷ r) (map-update q f now ds))
  | inr e ↦ rw e (ap (λ r. settings d ∷ r) (map-update q f now ds))
]

map-snoc :
    (ds : List Device) (d : Device)
    → map settings (ds ++ d ∷ []) ≡ map settings ds ++ settings d ∷ []
map-snoc [] d = refl
map-snoc (e ∷ ds) d = ap (λ r. settings e ∷ r) (map-snoc ds d)

upsert_device-Extends : (f : Found) (s : Db) → Extends s (upsert_device f s)
unfolding upsert_device device_row
upsert_device-Extends f s = elim (Bool-cases (any (λ d. text_eq d.mac_address f.mac) s.devices)) [
  | inl e ↦ (
    [],
    rw e (
        map-update (λ d. text_eq d.mac_address f.mac) f s.now s.devices
        ∙ sym (append-nil (map settings s.devices))),
    tt,
  )
  | inr e ↦ (settings (device_row f s) ∷ [], rw e (map-snoc s.devices (device_row f s)), (refl, tt))
]

upsert_all-Extends : (fs : List Found) (s : Db) → Extends s (upsert_all fs s)
unfolding upsert_all
upsert_all-Extends [] s = ([], sym (append-nil (map settings s.devices)), tt)
upsert_all-Extends (f ∷ fs) s =
    let (one, e, n) = upsert_device-Extends f s in
    let (more, g, m) = upsert_all-Extends fs (upsert_device f s) in
    (
      one ++ more,
      g ∙ ap (λ l. l ++ more) e ∙ append_assoc (map settings s.devices) one more,
      All-append (λ d. d.is_blocked ≡ false) one more n m,
    )

-- A scan, whatever the leases and the ARP table hold, keeps every known device in its row with its
-- address, its alias and whether it is blocked, and adds only devices that are not blocked.
pub scan-Extends :
    (lan : Text) (leases arp : Option Text) (s : Db) → Extends s (scan lan leases arp s)
unfolding scan
scan-Extends lan leases arp s =
    upsert_all-Extends
      (parse_arp lan (drop 1 (file_lines arp)) (parse_dhcp_leases (file_lines leases) [])) s
