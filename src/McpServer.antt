-- ===== src/McpServer.antt =====
-- tools/api/internal/mcpserver: the tools that an agent calls.
pub mod Queue
pub mod Approvals
pub mod Notes
pub mod Reads
