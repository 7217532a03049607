-- ===== src/Application/Audit.antt =====
-- core/vericlose/audit/events.py. That the details are pairs of texts holds by type.
use veri_close.Prelude.{String, Result, ok, ◌>>◌}
use veri_close.Domain.Actions.{StringPairs}
use veri_close.Domain.Events.{DateTime, require_text, require_aware}

pub record AuditEvent : Type 0 where
  pub audit_id : String
  pub run_id : String
  pub event_type : String
  pub occurred_at : DateTime
  pub details : StringPairs

-- AuditEvent.__post_init__
unfoldable pub audit_event : AuditEvent → Result AuditEvent
audit_event e = do
  require_text e.audit_id "audit_id"
  require_text e.run_id "run_id"
  require_text e.event_type "event_type"
  require_aware e.occurred_at "occurred_at"
  ok e
