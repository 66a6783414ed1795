-- ===== src/Lib.antt =====
-- A model of the backend in src/ with what its services guarantee. A holder receives academic
-- credentials from a university, keeps them in an encrypted wallet, and discloses single claims to
-- a bank that asks for them. The database is PostgreSQL behind Prisma; sessions of requests are
-- kept in Redis.
--
-- Common has the shared helpers: tests on numbers, lists, actions with their errors, tables with
-- keys, and the actions that keep a property. A service method is an action: a function from the
-- store to a result, or an exception, and the store, in which what was written before an exception
-- stays written. Text has what is used of JavaScript's strings.
--
-- Prisma is the database client as a parameter, with the documented behaviour of findFirst,
-- updateMany, create and $transaction; Tests/Memory is a client that keeps these laws. Database
-- has the rows and enumerations of prisma/schema.prisma, and JSON values. Identifiers, dates,
-- hashes and ciphertexts are numbers, since they are only compared.
--
-- Requests of several users interleave between the reads of a method and its transaction: what
-- they do there is the parameter `others`, any function on the store, and a theorem says which
-- property it must keep.
--
-- Credentials: src/credentials/credential-status.service.ts in Credentials/Status (suspend,
-- revoke, reactivate, changeStatus) and the transaction of
-- src/credentials/credential-issuance.service.ts in Credentials/Issuance; Credentials/History says
-- which histories are consistent, and Credentials/Calls has the theorems on the four methods.
--
-- Auth: src/auth/refresh-token.service.ts in Auth/RefreshTokens, with the cases of its methods in
-- Cases and the theorems in Kept, Live, Reuse and Theorems; login, refresh and logout of
-- src/auth/auth.service.ts in Auth/Sessions, with what refresh has done in Auth/Sessions/Refresh.
-- Access: src/auth/guards/jwt-auth.guard.ts and src/common/guards/roles.guard.ts; the check of a
-- token by @nestjs/jwt is a parameter.
--
-- Requests: src/verification-requests/verification-requests.service.ts. Claims has the checks of
-- claims and the selection of the disclosed ones, Claims/Statement what a credential says of a
-- claim, Proof the loop of createHolderDataIntegrityProof, State the store with the Redis
-- sessions, Service the method create and the expiry, Answer the methods approve and reject.
-- Answered is the invariant of the tables, and Lifecycle has the theorems on the calls: Open is
-- what the first checks let through, and Delivery what an approval has done. The signing loop
-- makes at most three rounds, as in the source: the recursion is on the number of rounds that are
-- left. Hashing, canonicalization, signing and decryption are parameters.
--
-- Base58: encodeBase58 and signatureToMultibase of src/credentials/credentials.service.ts and
-- src/verification-requests/verification-requests.service.ts, decodeBase58 and
-- decodeEddsaJcs2022ProofValue of src/verification/verification.service.ts, and
-- decodeClientProofValue of src/verification-requests/verification-requests.service.ts.
-- Base58/Digits has the loops on numbers, whose fuel is the number itself (its lemma split-enough
-- says that this is enough), and Base58/RoundTrip the theorems.
--
-- CredentialSchemas: src/credential-schemas/credential-schemas.service.ts; WellFormed and
-- Validation have its theorems.
--
-- Verification: src/verification/verification.service.ts. The root has validateRequestContext,
-- Proofs the two proofs of validateCryptographicChecks, Checks the rest of
-- validateCredentialChecks, Failure the report buildFailedVerificationChecks, and Outcome
-- verifyPresentation with its transactions. Theorems/Reading, Form, Signatures, Requested and
-- Credential say what each step that succeeds has established, and Bank which rows an outcome
-- changes; Sound puts them together, and Kept has the invariant of the tables.
--
-- Dids: src/did/did.service.ts. The root has the rows and lookups, Keys the transactions of
-- createDid, rotateKey, recoverCurrentKey and revokeHistoricalKey, Methods the public methods that
-- write, Signing the methods that sign and resolve. Invariant is what the keys of a DID keep, and
-- Revoked follows a revoked key. Key pairs, encryption and signatures are parameters.
--
-- Trust: create, suspend and isTrusted of src/trust-registry/trust-registry.service.ts. Jobs:
-- create and update of src/jobs/jobs.service.ts.
--
-- Not modelled: the wallet, applications, academic records, registration, and client-side signing;
-- controllers, DTOs, interceptors, health checks and configuration, which are glue; methods that
-- only read for display; rows' createdAt and updatedAt, and includes in what a method returns.
pub mod Common
pub mod Text
pub mod Prisma
pub mod Database
pub mod Credentials
pub mod CredentialSchemas
pub mod Auth
pub mod Access
pub mod Jobs
pub mod Base58
pub mod Dids
pub mod Requests
pub mod Trust
pub mod Verification
mod Tests
