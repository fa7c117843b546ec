-- ===== src/Rc.antt =====
-- src/rclone_kit/rc: the typed adapters over rclone's remote-control calls.
pub mod Payload
pub mod Jobs
pub mod JobClient
