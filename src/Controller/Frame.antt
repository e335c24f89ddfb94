-- ===== src/Controller/Frame.antt =====
-- Every execution of the goroutines of one notebook and of a whole `sync`, whatever else changes the
-- cluster meanwhile.
pub mod Bounds
pub mod Goroutines
pub mod Objects
pub mod StatefulSets
pub mod Resources
pub mod Sync
