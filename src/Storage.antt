-- ===== src/Storage.antt =====
-- src/lib/storage/: the read-modify-write of a JSON file.
pub mod AtomicJson
pub mod PlainFile
pub mod Mutation
pub mod Erasure
mod Examples
