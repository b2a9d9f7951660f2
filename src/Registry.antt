-- ===== src/Registry.antt =====
-- core/bits/registry.go: the registry of byte strings under hashed keys. Registry/Pages holds the
-- paged arrays, Registry/Header the slot table, and Registry/Ids the hash table from IDs to
-- positions.
pub mod Pages
pub mod Header
pub mod Ids
pub mod Snapshot
pub mod Tests
