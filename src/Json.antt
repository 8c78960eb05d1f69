-- ===== src/Json.antt =====
-- Package encoding/json, as far as the approval payload depends on it.
pub mod Scanner
pub mod Compact
