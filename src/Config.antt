-- ===== src/Config.antt =====
-- internal/config/config.go: the settings of the daemon, and their overrides by the environment.
use rpi_network_filter.Common.{Bool, false, ◌||◌, Text, codes, text_eq, if◌then◌else◌}
use rpi_network_filter.Strings.{is_nil, to_lower}

pub record Config : Type 0 where
  pub listen_addr : Text
  pub use_tls : Bool
  pub tls_cert : Text
  pub tls_key : Text
  pub db_path : Text
  pub wan_interface : Text
  pub lan_interface : Text
  pub lan_subnet : Text
  pub lan_gateway : Text
  pub dhcp_range_start : Text
  pub dhcp_range_end : Text
  pub dns_upstream : Text
  pub dry_run : Bool
  pub log_level : Text

abbrev pub defaults : Config
defaults = record {
  listen_addr = codes "192.168.4.1:80";
  use_tls = false;
  tls_cert = codes "/etc/netfilterd/server.crt";
  tls_key = codes "/etc/netfilterd/server.key";
  db_path = codes "/var/lib/netfilterd/netfilter.db";
  wan_interface = codes "eth1";
  lan_interface = codes "wlan0";
  lan_subnet = codes "192.168.4.0/24";
  lan_gateway = codes "192.168.4.1";
  dhcp_range_start = codes "192.168.4.100";
  dhcp_range_end = codes "192.168.4.250";
  dns_upstream = codes "1.1.1.1,8.8.8.8";
  dry_run = false;
  log_level = codes "info";
}

-- The value of a setting under a variable: an empty or missing one changes nothing.
unfoldable pub override : Text → Text → Text
override v old = if is_nil v then old else v

-- applyEnvOverrides, under an environment; a missing variable reads as the empty text.
unfoldable pub apply_env_overrides : (Text → Text) → Config → Config
unfolding override text_eq to_lower
apply_env_overrides env cfg =
    let dry = env (codes "NETFILTER_DRY_RUN") in
    record cfg {
      listen_addr = override (env (codes "NETFILTER_LISTEN_ADDR")) cfg.listen_addr;
      tls_cert = override (env (codes "NETFILTER_TLS_CERT")) cfg.tls_cert;
      tls_key = override (env (codes "NETFILTER_TLS_KEY")) cfg.tls_key;
      db_path = override (env (codes "NETFILTER_DB_PATH")) cfg.db_path;
      wan_interface = override (env (codes "NETFILTER_WAN_INTERFACE")) cfg.wan_interface;
      lan_interface = override (env (codes "NETFILTER_LAN_INTERFACE")) cfg.lan_interface;
      lan_subnet = override (env (codes "NETFILTER_LAN_SUBNET")) cfg.lan_subnet;
      lan_gateway = override (env (codes "NETFILTER_LAN_GATEWAY")) cfg.lan_gateway;
      dhcp_range_start = override (env (codes "NETFILTER_DHCP_RANGE_START")) cfg.dhcp_range_start;
      dhcp_range_end = override (env (codes "NETFILTER_DHCP_RANGE_END")) cfg.dhcp_range_end;
      dns_upstream = override (env (codes "NETFILTER_DNS_UPSTREAM")) cfg.dns_upstream;
      log_level = override (env (codes "NETFILTER_LOG_LEVEL")) cfg.log_level;
      dry_run =
          if is_nil dry
          then cfg.dry_run
          else text_eq (to_lower dry) (codes "true") || text_eq dry (codes "1");
    }
