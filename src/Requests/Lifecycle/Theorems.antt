-- ===== src/Requests/Lifecycle/Theorems.antt =====
-- What holds after every call of src/verification-requests/verification-requests.service.ts, and what
-- an approval that succeeds has delivered.
use ssi_academic_credential.Common.{ℕ, Option, Action, Keeps}
use ssi_academic_credential.Prisma.{Prisma}
use ssi_academic_credential.Database.{Db, WalletCredential, Json}
use ssi_academic_credential.Requests.Proof.{Crypto, DidSigningResult}
use ssi_academic_credential.Requests.State.{Redis, Store}
use ssi_academic_credential.Requests.Service.{CreateVerificationRequestInput, create}
use ssi_academic_credential.Requests.Answer.{ApproveVerificationRequestInput, approve, reject}
use ssi_academic_credential.Requests.Answered.{Answered}
use ssi_academic_credential.Requests.Lifecycle.Calls.{create-Sound, approve-Sound, reject-Sound}

pub data Call : Type 0 where
  creates : (id nonce now : ℕ) → CreateVerificationRequestInput → Call
  approves : (presentation_id now created_at later : ℕ) → ApproveVerificationRequestInput → Call
  rejects : (now later request_id holder_id : ℕ) → Call

-- What runs besides a call: other requests, and the signing.
module _ (prisma : Prisma) (redis : Redis) (sha256 : ℕ → ℕ) (crypto : Crypto)
    (sign_for_user : ℕ → ℕ → Action Db DidSigningResult) (Plain : Type 0)
    (decrypt : WalletCredential → Option Plain) (parse : Plain → Option Json)
    (others : Store redis → Store redis) (signing : Db → Db) where
  -- The store after a call, whether it succeeds or throws.
  abbrev pub after : Call → Store redis → Store redis
  after (creates id nonce now input) s = (create prisma redis others sha256 id nonce now input s).1
  after (approves presentation_id now created_at later input) s =
      (approve prisma redis crypto sign_for_user Plain decrypt parse others signing presentation_id
        now created_at later input s).1
  after (rejects now later request_id holder_id) s =
      (reject prisma redis others now later request_id holder_id s).1

  -- Every call that creates, approves or rejects a request, whether it succeeds or throws, keeps the
  -- requests and the presentations in step, if the other requests and the signing do: identifiers of
  -- requests stay distinct, a request has one presentation at most, a presentation belongs to a request
  -- whose status is approved, verified, failed or expired, and a request whose status is one of the
  -- first three has a presentation.
  pub after-Answered :
      ((s : Store redis) → Answered s.db → Answered (others s).db)
      → ((d : Db) → Answered d → Answered (signing d))
      → ((holder_id hash : ℕ) → Keeps Answered (sign_for_user holder_id hash))
      → (c : Call) (s : Store redis) → Answered s.db
      → Answered (after c s).db
  after-Answered o g k (creates id nonce now input) s v =
      create-Sound prisma redis others o sha256 id nonce now input s v
  after-Answered o g k (approves presentation_id now created_at later input) s v =
      approve-Sound prisma redis others o crypto sign_for_user Plain decrypt parse signing g k
        presentation_id now created_at later input s v
  after-Answered o g k (rejects now later request_id holder_id) s v =
      reject-Sound prisma redis others o now later request_id holder_id s v
