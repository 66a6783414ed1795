-- ===== src/Credentials.antt =====
-- src/credentials: the status service, and the history that every change leaves.
pub mod Status
pub mod Issuance
pub mod History
pub mod Calls
