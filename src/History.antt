-- ===== src/History.antt =====
-- Package history.
pub mod Ring
pub mod Query
pub mod Export
