-- ===== src/Transfer.antt =====
-- internal/transfer: one-time download tickets, symbolic links, uploads and downloads over SFTP.
pub mod Tickets
pub mod Sftp
pub mod Links
pub mod Requests
pub mod Mode
pub mod Prepare
pub mod Push
pub mod Pull
mod Tests
mod PushTests
mod PullTests
