-- ===== src/Approval.antt =====
-- tools/api/internal/approval
pub mod Payload
pub mod Keys
pub mod Registry
