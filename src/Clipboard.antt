-- ===== src/Clipboard.antt =====
-- crates/ss-clipboard: sending clipboard content, putting it together again, and watching for changes.
pub mod Sync
pub mod Monitor
pub mod Tasks
