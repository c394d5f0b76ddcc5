-- ===== src/Models.antt =====
-- The records of internal/models: the rows of the tables as the services hand them on. A time is a
-- number, an id a number from 1 up; a text stands for a string.
use rpi_network_filter.Common.{ℕ, Bool, Option, Text}

pub record Policy : Type 0 where
  pub id : ℕ
  pub name : Text
  pub mode : Text
  pub description : Text
  pub is_default : Bool
  pub created_at : ℕ

pub record PolicyDomain : Type 0 where
  pub id : ℕ
  pub policy_id : ℕ
  pub domain : Text
  pub description : Text
  pub enabled : Bool
  pub resolved_ips : Text
  pub last_resolved_at : Option ℕ
  pub hit_count : ℕ
  pub created_at : ℕ

pub record DevicePolicy : Type 0 where
  pub device_mac : Text
  pub policy_id : ℕ
  pub policy_name : Text
  pub assigned_at : ℕ

pub record AllowedDomain : Type 0 where
  pub id : ℕ
  pub domain : Text
  pub description : Text
  pub enabled : Bool
  pub created_at : ℕ

pub record BlockedDomain : Type 0 where
  pub id : ℕ
  pub domain : Text
  pub match_type : Text
  pub reason : Text
  pub enabled : Bool
  pub created_at : ℕ

pub record FirewallRule : Type 0 where
  pub id : ℕ
  pub description : Text
  pub direction : Text
  pub protocol : Text
  pub source_ip : Text
  pub dest_ip : Text
  pub dest_port : Text
  pub action : Text
  pub device_mac : Text
  pub enabled : Bool
  pub priority : ℕ
  pub created_at : ℕ

-- `Online` is computed by the query, and stands in no table.
pub record Device : Type 0 where
  pub id : ℕ
  pub mac_address : Text
  pub ip_address : Text
  pub hostname : Text
  pub alias : Text
  pub first_seen : ℕ
  pub last_seen : ℕ
  pub is_blocked : Bool

pub record DnsBlockEntry : Type 0 where
  pub id : ℕ
  pub domain : Text
  pub category : Text
  pub enabled : Bool
  pub created_at : ℕ

pub record BandwidthLimit : Type 0 where
  pub id : ℕ
  pub device_mac : Text
  pub download_kbps : ℕ
  pub upload_kbps : ℕ
  pub enabled : Bool

pub record User : Type 0 where
  pub id : ℕ
  pub username : Text
  pub password_hash : Text
  pub created_at : ℕ

pub record Session : Type 0 where
  pub token : Text
  pub user_id : ℕ
  pub expires_at : ℕ

-- A row of settings or of kv_store.
pub record Setting : Type 0 where
  pub key : Text
  pub value : Text

pub record AuditLog : Type 0 where
  pub id : ℕ
  pub action : Text
  pub details : Text
  pub timestamp : ℕ
