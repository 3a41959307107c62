-- ===== src/Sqlite.antt =====
-- internal/repository/sqlite: the repository and the delivery store over the tables of `Db`.
pub mod Errors
pub mod Rows
pub mod Artifacts
pub mod Channels
pub mod Deliveries
