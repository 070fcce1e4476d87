-- ===== src/VectorAudit.antt =====
-- include/infrastructure/vector_audit.hpp: `VectorAudit`. Decimal printing is a parameter.
use secure_file_transfer.Base.{
  ℕ, ◌+◌, ◌≡◌, List, [], ◌∷◌, ◌++◌, Bytes, codes, length, length-append, arith,
}
use secure_file_transfer.Domain.Records.{AuditEvent}

-- `log_.empty() ? "GENESIS" : log_.back().msgHash`
abbrev pub back_hash : Bytes → List AuditEvent → Bytes
back_hash h [] = h
back_hash h (e ∷ es) = back_hash e.msg_hash es

module _ (decimal : ℕ → Bytes) where
  abbrev pub stamped : AuditEvent → List AuditEvent → AuditEvent
  stamped e log = record e {
    seq = length log;
    prev_hash = back_hash (codes "GENESIS") log;
    msg_hash = codes "h" ++ decimal (length log);
  }

  unfoldable pub record_event : AuditEvent → List AuditEvent → List AuditEvent
  record_event e log = log ++ (stamped e log ∷ [])

  -- A call makes the log one event longer.
  pub record_event-length :
      (e : AuditEvent) (log : List AuditEvent) → length (record_event e log) ≡ length log + 1
  unfolding record_event
  record_event-length e log = omega (arith, length-append log (stamped e log ∷ []))
