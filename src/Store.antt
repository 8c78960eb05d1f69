-- ===== src/Store.antt =====
-- tools/api/internal/store
pub mod Schema
pub mod Exec
pub mod Keeps
pub mod Text
pub mod Like
pub mod Approvals
pub mod Users
pub mod Enqueued
pub mod Reads
pub mod Gives
pub mod Calmly
pub mod Returns
pub mod Grantees
pub mod Sources
pub mod Threads
pub mod Messages
pub mod Docs
pub mod Notes
pub mod Queries
pub mod Atomic
pub mod Linked
pub mod Inserted
pub mod Children
pub mod Complete
pub mod Answers
pub mod Delivered
pub mod Ownership
pub mod Paged
