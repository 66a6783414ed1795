-- ===== src/Tests.antt =====
-- Runs of the model, and each theorem at an input that meets its hypotheses. `memory` is a database
-- client that keeps the laws of `Prisma`.
mod Memory
mod Credentials
mod Auth
mod Requests
mod Registry
mod Sessions
mod Signatures
mod Dids
mod Schemas
mod Verification
