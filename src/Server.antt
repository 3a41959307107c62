-- ===== src/Server.antt =====
-- The whole service: what its tables keep while requests and deliveries interleave.
pub mod Integrity
pub mod Threads
pub mod System
pub mod Catalog
pub mod Safekeeping
pub mod Start
