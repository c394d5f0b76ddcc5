-- ===== src/Db.antt =====
-- The SQLite database that the services share: the tables of internal/database/migrations.go as
-- lists of rows in the order of their ids, with the counters of their AUTOINCREMENT keys and the
-- clock of CURRENT_TIMESTAMP. A statement of the source becomes a function on the tables; it fails
-- where a constraint of the schema fails, with `PRAGMA foreign_keys=ON` as internal/database/
-- database.go sets it. Failures of the disk or of the driver are not modelled.
pub mod Sorting
pub mod Pairs
use Prim.Native.Nat.{compare, Ordering}
use rpi_network_filter.Common.{ℕ, Bool, true, false, List, [], ◌∷◌, Text, Result, if◌then◌else◌}
use rpi_network_filter.Models.{
  Policy, PolicyDomain, BlockedDomain, FirewallRule, Device, DnsBlockEntry, BandwidthLimit, User,
  Session, Setting, AuditLog,
}

-- A constraint that a statement breaks, or a result that does not fit the program's variables.
pub data DbError : Type 0 where
  unique check foreign_key no_rows null : DbError

-- services.BlockMatch
pub record BlockMatch : Type 0 where
  pub domain : Text
  pub match_type : Text
  pub reason : Text

-- The errors of the services, without their texts.
pub data Error : Type 0 where
  policy_not_found default_policy_lock invalid_name invalid_mode domain_required : Error
  bad_match_type mac_required invalid_credentials invalid_session session_expired : Error
  user_not_found short_passphrase invalid_channel exec_failed write_failed : Error
  domain_blocked : BlockMatch → Error
  db : DbError → Error

-- A row of device_policies; the name comes from a join.
pub record Assignment : Type 0 where
  pub device_mac : Text
  pub policy_id : ℕ
  pub assigned_at : ℕ

pub record Db : Type 0 where
  pub now : ℕ
  pub policies : List Policy
  pub policies_seq : ℕ
  pub policy_allowed_domains : List PolicyDomain
  pub policy_allowed_domains_seq : ℕ
  pub device_policies : List Assignment
  pub blocked_domains : List BlockedDomain
  pub blocked_domains_seq : ℕ
  pub firewall_rules : List FirewallRule
  pub firewall_rules_seq : ℕ
  pub devices : List Device
  pub devices_seq : ℕ
  pub dns_blocklist : List DnsBlockEntry
  pub dns_blocklist_seq : ℕ
  pub bandwidth_limits : List BandwidthLimit
  pub bandwidth_limits_seq : ℕ
  pub users : List User
  pub users_seq : ℕ
  pub sessions : List Session
  pub settings : List Setting
  pub audit_log : List AuditLog
  pub audit_log_seq : ℕ

-- A service's method: its result and the database behind it.
abbrev pub Action : Type 0 → Type 0
Action A = Db → Result Error A × Db

-- ORDER BY: a stable sort.
module _ {A : Type 0} (before : A → A → Bool) where
  unfoldable pub insert_by : A → List A → List A
  insert_by x [] = x ∷ []
  insert_by x (y ∷ ys) = let rest = insert_by x ys in if before y x then y ∷ rest else x ∷ y ∷ ys

  unfoldable pub order_by : List A → List A
  unfolding insert_by
  order_by [] = []
  order_by (x ∷ xs) = insert_by x (order_by xs)

-- The collation BINARY: `text_lt s t` is `s < t`.
unfoldable pub text_lt : Text → Text → Bool
text_lt s [] = false
text_lt [] (d ∷ t) = true
text_lt (c ∷ s) (d ∷ t) =
    let rest = text_lt s t in
    elim (compare c d) [ Ordering.lt ↦ true | Ordering.eq ↦ rest | Ordering.gt ↦ false ]
