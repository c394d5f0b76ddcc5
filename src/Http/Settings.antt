-- ===== src/Http/Settings.antt =====
-- internal/handlers/settings.go: SettingsHandler, which has its own statements on the table settings.
pub mod Values
use rpi_network_filter.Common.{
  Bool, ◌||◌, List, [], ◌∷◌, ◌++◌, codes, text_eq, length, any, update_where, ok, ltb,
  if◌then◌else◌,
}
use rpi_network_filter.Models.{Setting, User}
use rpi_network_filter.Db.{Action}
use rpi_network_filter.Auth.{reset_password}
use rpi_network_filter.Db.Pairs.{put_setting}
use rpi_network_filter.Http.{
  Env, Request, settings, Handler, json, json_error, ok_reply, answer, with_body, call, audit,
  start, apply_hotspot_, apply_dns_,
}
use rpi_network_filter.Http.Policies.{error_text}

unfoldable pub get : Handler
get s = (json 200 (settings s.store.settings), s)

-- The loop of the transaction, in the order of the entries.
unfoldable pub put_settings : List Setting → List Setting → List Setting
unfolding put_setting
put_settings [] rows = rows
put_settings (r ∷ rs) rows = put_settings rs (put_setting r rows)

unfoldable pub needs_hotspot_restart : List Setting → Bool
unfolding text_eq
needs_hotspot_restart rs =
    any
      (λ r.
        text_eq r.key (codes "ap_ssid")
        || text_eq r.key (codes "ap_password")
        || text_eq r.key (codes "ap_channel"))
      rs

unfoldable pub needs_dns_reload : List Setting → Bool
unfolding text_eq
needs_dns_reload rs = any (λ r. text_eq r.key (codes "dns_upstream")) rs

unfoldable pub commit : List Setting → Action (Unit {0})
unfolding put_settings
commit rs s = (ok tt, record s { settings = put_settings rs s.settings })

-- The answer, with a reload of dnsmasq started if one is needed.
unfoldable pub reload : List Setting → Handler
reload rs = if needs_dns_reload rs then start apply_dns_ (answer ok_reply) else answer ok_reply

unfoldable pub update : Request → Handler
update r = with_body r.settings λ rs. call (commit rs) (error_text 500) λ _.
    audit (codes "settings.update") (codes "updated settings")
      (if needs_hotspot_restart rs then start apply_hotspot_ (reload rs) else reload rs)

-- ChangePassword, for the user of the session.
unfoldable pub change_password : Env → User → Request → Handler
change_password env user r = with_body r.password λ password.
    if ltb (length password) 8
    then answer (json_error 400 (codes "password must be at least 8 characters"))
    else call (reset_password env.bcrypt r.salt user.username password) (error_text 500)
        λ _. audit (codes "auth.password_change") (codes "user=" ++ user.username) (answer ok_reply)
