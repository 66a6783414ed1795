-- ===== src/Verification/Theorems.antt =====
-- What a verification of src/verification/verification.service.ts has established, and what it keeps.
mod Steps
mod Form
mod Bank
mod Requested
pub mod Reading
pub mod Signatures
pub mod Credential
pub mod Sound
pub mod Kept
