-- ===== src/Http/Devices.antt =====
-- internal/handlers/devices.go: DevicesHandler.
use rpi_network_filter.Common.{Bool, ◌++◌, Text, codes, if◌then◌else◌}
use rpi_network_filter.Network.{list_devices, update_device}
use rpi_network_filter.Http.{
  Request, devices, Handler, json, ok_reply, answer, with_body, call, audit, apply_firewall_, start,
}
use rpi_network_filter.Http.Policies.{error_text}

unfoldable pub list : Handler
unfolding list_devices
list s = (json 200 (devices (list_devices s.store)), s)

abbrev pub bool_str : Bool → Text
bool_str b = if b then codes "true" else codes "false"

-- Update: the parameter of the path is taken as it is, and Apply runs in a goroutine.
unfoldable pub update : Request → Handler
update r =
    let mac = r.url_param (codes "mac") in
    with_body r.device λ d. call (update_device mac d.alias d.is_blocked) (error_text 500) λ _.
      audit (codes "device.update")
        (codes "MAC=" ++ mac ++ codes " blocked=" ++ bool_str d.is_blocked)
        (start apply_firewall_ (answer ok_reply))
