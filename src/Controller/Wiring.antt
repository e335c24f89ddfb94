-- ===== src/Controller/Wiring.antt =====
-- How the four calculated objects of one notebook fit together.
pub mod Belonging
pub mod Routes
pub mod Secrets
pub mod Hosts
