-- ===== src/Consent.antt =====
-- The consent registry (src/consent): who agreed to the processing of which data, where the
-- agreements are stored, and how Discord reactions change them.
pub mod Types
pub mod Repository
pub mod RepositoryJson
pub mod Service
pub mod Reactions
pub mod Samples
mod Examples
