-- ===== src/Audit.antt =====
-- internal/services/audit.go: AuditService, the log of what was changed.
use rpi_network_filter.Common.{ℕ, ◌+◌, ltb, List, [], ◌∷◌, ◌++◌, Text, take}
use rpi_network_filter.Models.{AuditLog}
use rpi_network_filter.Db.{Db, order_by}

-- Log; a failure of the statement is ignored.
unfoldable pub log_action : Text → Text → Db → Db
log_action action details s = record s {
  audit_log =
      s.audit_log
      ++ record { id = s.audit_log_seq + 1; action = action; details = details; timestamp = s.now }
        ∷ [];
  audit_log_seq = s.audit_log_seq + 1;
}

-- Recent
unfoldable pub recent_actions : Db → ℕ → List AuditLog
recent_actions s limit = take limit (order_by (λ a b. ltb b.timestamp a.timestamp) s.audit_log)
