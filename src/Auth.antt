-- ===== src/Auth.antt =====
-- src/auth: refresh tokens and their families, sessions, and the guards.
pub mod RefreshTokens
pub mod Sessions
