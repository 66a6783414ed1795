-- ===== src/Requests.antt =====
-- src/verification-requests: which claims may be asked for and disclosed, and the life of a request.
pub mod Claims
pub mod State
pub mod Service
pub mod Proof
pub mod Answer
pub mod Answered
pub mod Lifecycle
