-- ===== src/Storage.antt =====
-- cpp/include/tickline/storage and cpp/src/storage: the store of investigations and the bundles of its
-- evidence.
pub mod Store
pub mod Json
pub mod Bundle
pub mod Export
pub mod Sqlite
pub mod Queries
pub mod Rows
pub mod Import
