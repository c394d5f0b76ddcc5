-- ===== src/Bandwidth.antt =====
-- internal/services/bandwidth.go: BandwidthService, limits per device, and the commands of tc that
-- put them in force.
pub mod Classes
use rpi_network_filter.Common.{
  ℕ, suc, ◌+◌, ◌==◌, Bool, true, false, not, ◌&&◌, ◌||◌, Option, none, some, List, [], ◌∷◌, ◌++◌,
  Text, codes, text_eq, Result, ok, err, any, find, keep, update_where, if◌then◌else◌,
}
use rpi_network_filter.Config.{Config}
use rpi_network_filter.Strings.{is_nil, to_upper}
use rpi_network_filter.Strings.Decimal.{format_int}
use rpi_network_filter.Models.{BandwidthLimit}
use rpi_network_filter.Db.{Db, Action, Error, exec_failed}

unfoldable pub list_limits : Db → List BandwidthLimit
list_limits s = s.bandwidth_limits

-- INSERT … ON CONFLICT(device_mac) DO UPDATE. The result is what SQLite reports as the last row
-- inserted: `last` where the row was there already; the counter advances all the same.
unfoldable pub create_limit : ℕ → BandwidthLimit → Action ℕ
create_limit last l s =
    if any (λ b. text_eq b.device_mac l.device_mac) s.bandwidth_limits
    then (
      ok last,
      record s {
        bandwidth_limits =
            update_where (λ b. text_eq b.device_mac l.device_mac)
              (λ b. record b {
                download_kbps = l.download_kbps;
                upload_kbps = l.upload_kbps;
                enabled = l.enabled;
              })
              s.bandwidth_limits;
        bandwidth_limits_seq = s.bandwidth_limits_seq + 1;
      },
    )
    else (
      ok (s.bandwidth_limits_seq + 1),
      record s {
        bandwidth_limits = s.bandwidth_limits ++ record l { id = s.bandwidth_limits_seq + 1 } ∷ [];
        bandwidth_limits_seq = s.bandwidth_limits_seq + 1;
      },
    )

unfoldable pub update_limit : ℕ → BandwidthLimit → Action (Unit {0})
update_limit id l s = (
  ok tt,
  record s {
    bandwidth_limits =
        update_where (λ b. b.id == id)
          (λ b. record b {
            download_kbps = l.download_kbps;
            upload_kbps = l.upload_kbps;
            enabled = l.enabled;
          })
          s.bandwidth_limits;
  },
)

unfoldable pub delete_limit : ℕ → Action (Unit {0})
delete_limit id s =
    (ok tt, record s { bandwidth_limits = keep (λ b. not (b.id == id)) s.bandwidth_limits })

-- The address of a device, none for an unknown one.
unfoldable pub get_device_ip : Db → Text → Text
unfolding to_upper text_eq
get_device_ip s mac = elim (find (λ d. text_eq d.mac_address (to_upper mac)) s.devices) [
  | none ↦ []
  | some d ↦ d.ip_address
]

abbrev pub Command : Type 0
Command = List Text

-- The class of the limit at a position.
unfoldable pub class_id : ℕ → Text
class_id i = codes "1:" ++ format_int (i + 1)

unfoldable pub class_command : Text → Text → ℕ → Command
class_command iface class kbps =
    let rate = format_int kbps ++ codes "kbit" in
    codes "tc"
    ∷ codes "class"
    ∷ codes "add"
    ∷ codes "dev"
    ∷ iface
    ∷ codes "parent"
    ∷ codes "1:"
    ∷ codes "classid"
    ∷ class
    ∷ codes "htb"
    ∷ codes "rate"
    ∷ rate
    ∷ codes "ceil"
    ∷ rate
    ∷ []

-- The filter that sends an address, as `src` or `dst`, to a class.
unfoldable pub filter_command : Text → Text → Text → Text → Command
filter_command iface direction ip class =
    codes "tc"
    ∷ codes "filter"
    ∷ codes "add"
    ∷ codes "dev"
    ∷ iface
    ∷ codes "parent"
    ∷ codes "1:"
    ∷ codes "protocol"
    ∷ codes "ip"
    ∷ codes "prio"
    ∷ codes "1"
    ∷ codes "u32"
    ∷ codes "match"
    ∷ codes "ip"
    ∷ direction
    ∷ ip
    ∷ codes "flowid"
    ∷ class
    ∷ []

abbrev pub root_qdisc : Text → Command
root_qdisc iface =
    codes "tc"
    ∷ codes "qdisc"
    ∷ codes "add"
    ∷ codes "dev"
    ∷ iface
    ∷ codes "root"
    ∷ codes "handle"
    ∷ codes "1:"
    ∷ codes "htb"
    ∷ codes "default"
    ∷ codes "999"
    ∷ []

abbrev pub default_class : Text → Command
default_class iface =
    codes "tc"
    ∷ codes "class"
    ∷ codes "add"
    ∷ codes "dev"
    ∷ iface
    ∷ codes "parent"
    ∷ codes "1:"
    ∷ codes "classid"
    ∷ codes "1:999"
    ∷ codes "htb"
    ∷ codes "rate"
    ∷ codes "100mbit"
    ∷ []

module _ (works : Command → Bool) (s : Db) (iface : Text) where
  -- The loop over the download limits, from a position on: the commands that are run.
  unfoldable pub download_commands : ℕ → List BandwidthLimit → List Command
  unfolding class_id class_command filter_command get_device_ip
  download_commands i [] = []
  download_commands i (l ∷ ls) =
      let rest = download_commands (suc i) ls in
      let ip = get_device_ip s l.device_mac in
      let add = class_command iface (class_id i) l.download_kbps in
      if is_nil ip
      then rest
      else if not (works add)
      then add ∷ rest
      else add ∷ filter_command iface (codes "dst") ip (class_id i) ∷ rest

unfoldable pub clear_commands : Text → List Command
clear_commands iface =
    (codes "tc" ∷ codes "qdisc" ∷ codes "del" ∷ codes "dev" ∷ iface ∷ codes "root" ∷ [])
    ∷ (codes "tc" ∷ codes "qdisc" ∷ codes "del" ∷ codes "dev" ∷ iface ∷ codes "ingress" ∷ [])
    ∷ []

unfoldable pub redirect_commands : Text → List Command
redirect_commands iface =
    (codes "ip" ∷ codes "link" ∷ codes "add" ∷ codes "ifb0" ∷ codes "type" ∷ codes "ifb" ∷ [])
    ∷ (codes "ip" ∷ codes "link" ∷ codes "set" ∷ codes "ifb0" ∷ codes "up" ∷ [])
    ∷ (codes "tc"
        ∷ codes "qdisc"
        ∷ codes "add"
        ∷ codes "dev"
        ∷ iface
        ∷ codes "handle"
        ∷ codes "ffff:"
        ∷ codes "ingress"
        ∷ [])
    ∷ (codes "tc"
        ∷ codes "filter"
        ∷ codes "add"
        ∷ codes "dev"
        ∷ iface
        ∷ codes "parent"
        ∷ codes "ffff:"
        ∷ codes "protocol"
        ∷ codes "ip"
        ∷ codes "u32"
        ∷ codes "match"
        ∷ codes "u32"
        ∷ codes "0"
        ∷ codes "0"
        ∷ codes "action"
        ∷ codes "mirred"
        ∷ codes "egress"
        ∷ codes "redirect"
        ∷ codes "dev"
        ∷ codes "ifb0"
        ∷ [])
    ∷ []

-- applyUploadLimits: its loop, whose errors are ignored.
unfoldable pub upload_commands : Db → ℕ → List BandwidthLimit → List Command
unfolding class_id class_command filter_command get_device_ip
upload_commands s i [] = []
upload_commands s i (l ∷ ls) =
    let rest = upload_commands s (suc i) ls in
    let ip = get_device_ip s l.device_mac in
    if l.upload_kbps == 0 || is_nil ip
    then rest
    else class_command (codes "ifb0") (class_id i) l.upload_kbps
      ∷ filter_command (codes "ifb0") (codes "src") ip (class_id i)
      ∷ rest

unfoldable pub apply_upload_limits : Db → Text → List BandwidthLimit → List Command
unfolding redirect_commands upload_commands
apply_upload_limits s iface active =
    redirect_commands iface
    ++ root_qdisc (codes "ifb0") ∷ default_class (codes "ifb0") ∷ upload_commands s 0 active

-- Apply: its result and the commands that it runs. `runs` tells which commands succeed.
unfoldable pub apply_limits :
    Config → (Command → Bool) → Db → Result Error (Unit {0}) × List Command
unfolding clear_commands download_commands apply_upload_limits list_limits
apply_limits cfg runs s =
    let iface = cfg.lan_interface in
    let works = λ (c : Command). cfg.dry_run || runs c in
    let active = keep (λ l. l.enabled) (list_limits s) in
    if is_nil active
    then (ok tt, clear_commands iface)
    else if not (works (root_qdisc iface))
    then (err exec_failed, clear_commands iface ++ root_qdisc iface ∷ [])
    else if not (works (default_class iface))
    then (err exec_failed, clear_commands iface ++ root_qdisc iface ∷ default_class iface ∷ [])
    else (
      ok tt,
      clear_commands iface
          ++ root_qdisc iface
            ∷ default_class iface
            ∷ (download_commands works s iface 0 active ++ apply_upload_limits s iface active),
    )
