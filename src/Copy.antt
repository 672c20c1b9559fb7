-- ===== src/Copy.antt =====
-- The deep copies of the resource, over a memory with addresses.
pub mod Memory
pub mod Layout
pub mod Generated
pub mod Copied
pub mod Fields
pub mod Parts
pub mod Machinery
pub mod Job
pub mod Access
pub mod Sharing
pub mod JobList
