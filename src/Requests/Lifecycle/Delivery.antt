-- ===== src/Requests/Lifecycle/Delivery.antt =====
-- What an approval that succeeds has delivered: `approve` of
-- src/verification-requests/verification-requests.service.ts.
use ssi_academic_credential.Common.{
  ℕ, String, List, Option, some, Result, Action, ok, err, ◌≡◌, ◌>>=◌, ◌>>◌, pure, modify, settle,
  bind_inv, Option-cases, Result-cases, inl, inr, arith, In, sym, ◌∙◌, ap, subst, map,
}
use ssi_academic_credential.Text.{trim}
use ssi_academic_credential.Requests.Claims.Laws.{Acceptable, approved_iff}
use ssi_academic_credential.Prisma.{Prisma}
use ssi_academic_credential.Database.{Db, WalletCredential, Json, VerificationRequest, Presentation}
use ssi_academic_credential.Requests.Claims.{
  stored_claims, validate_approved_claims, extract_disclosed_claims,
}
use ssi_academic_credential.Requests.Proof.{
  Crypto, DidSigningResult, ProofInput, HolderProof, create_holder_proof, SignedBy, Rounds,
  create_holder_proof-SignedBy,
}
use ssi_academic_credential.Requests.State.{Redis, Store, on_db}
use ssi_academic_credential.Requests.Answer.{
  ApproveVerificationRequestInput, ApprovedRequest, Active, Approval, proof_input, in_wallet,
  approve, active_request, prepare_approval, commit_approval, approve_body,
}
use ssi_academic_credential.Requests.Lifecycle.{Approved, approve_body_ok}
use ssi_academic_credential.Requests.Lifecycle.Open.{Open, active_request_ok}

pub settle_ok :
    {S A : Type 0} (s : S) (x : Result A × S) (a : A) (t : S)
    → settle s x ≡ (ok a, t)
    → x ≡ (ok a, t)
settle_ok s (ok b, u) a t h = h
settle_ok s (err e, u) a t h = absurd (cc)

module _ (prisma : Prisma) (redis : Redis) where
  on_db_ok :
      {A : Type 0} (m : Action Db A) (s : Store redis) (a : A) (u : Store redis)
      → on_db redis m s ≡ (ok a, u)
      → m s.db ≡ (ok a, u.db)
  on_db_ok m s a u h = ap (λ x. (x.0, x.1.db)) h

  on_db_cache :
      {A : Type 0} (m : Action Db A) (s : Store redis) (a : A) (u : Store redis)
      → on_db redis m s ≡ (ok a, u)
      → u ≡ record s { db = u.db }
  on_db_cache m s a u h =
      let same : s.cache ≡ u.cache = ap (λ x. x.1.cache) h in
      ap (λ c. record u { cache = c }) (sym same)

  module _ (crypto : Crypto) (sign_for_user : ℕ → ℕ → Action Db DidSigningResult) (Plain : Type 0)
      (decrypt : WalletCredential → Option Plain) (parse : Plain → Option Json)
      (others : Store redis → Store redis) (signing : Db → Db) where
    -- The claims are allowed, and are read from a credential in the holder's wallet.
    pub record Disclosed (input : ApproveVerificationRequestInput) (requested : Json) (x : Approval)
        (s : Store redis) : Type 0 where
      pub trimmed : x.approved_claims ≡ map trim input.approved_claims
      pub allowed : List String
      pub allowed_stored : stored_claims requested ≡ some allowed
      pub acceptable : Acceptable allowed x.approved_claims
      pub held : WalletCredential
      pub plain : Plain
      pub stored : In held s.db.wallet_credentials
      pub own : (held.credential_id ≡ input.credential_id) × (held.holder_id ≡ input.holder_id)
      pub opened : decrypt held ≡ some plain
      pub extracted :
          extract_disclosed_claims (parse plain) x.approved_claims ≡ ok x.disclosed_claims

    pub prepare_approval_ok :
        (input : ApproveVerificationRequestInput) (a : Active) (s : Store redis) (x : Approval)
        (u : Store redis)
        → prepare_approval prisma redis crypto sign_for_user Plain decrypt parse input a s
          ≡ (ok x, u)
        → Disclosed input a.request.requested_claims x s × (u ≡ s)
    unfolding prepare_approval
    prepare_approval_ok input a s x u h =
        elim (Result-cases
          (validate_approved_claims input.approved_claims a.request.requested_claims)) [
            | inr (n, e) ↦ absurd (ground arith)
            | inl (claims, e) ↦
                elim (Option-cases (
                  prisma.find_first (in_wallet input.credential_id input.holder_id)
                    s.db.wallet_credentials)) [
                      | inl q ↦ absurd (ground arith)
                      | inr (w, q) ↦ elim (Option-cases (decrypt w)) [
                        | inl p ↦ absurd (ground arith)
                        | inr (plain, p) ↦
                            elim (Result-cases (extract_disclosed_claims (parse plain) claims)) [
                              | inr (n, z) ↦ absurd (ground arith)
                              | inl (fs, z) ↦
                                  let (own, stored) = prisma.find_first-some _ _ _ q in
                                  let (trimmed, (allowed, known, acceptable)) =
                                    (approved_iff input.approved_claims a.request.requested_claims
                                        claims).0
                                      e in
                                  let got : Disclosed input a.request.requested_claims
                                      (record { approved_claims = claims; disclosed_claims = fs })
                                      s =
                                    record {
                                      trimmed = trimmed;
                                      allowed = allowed;
                                      allowed_stored = known;
                                      acceptable = acceptable;
                                      held = w;
                                      plain = plain;
                                      stored = stored;
                                      own = (ground arith, ground arith);
                                      opened = p;
                                      extracted = z;
                                    } in
                                  let same : record {
                                    approved_claims = claims;
                                    disclosed_claims = fs;
                                  }
                                      ≡ x =
                                    ground arith in
                                  (
                                    subst (λ x. Disclosed input a.request.requested_claims x s) same
                                        got,
                                    ground arith,
                                  )
                            ]
                      ]
                    ]
          ]

    -- A presentation has been signed, in some round of the signing loop; after the other requests that
    -- ran then, it has been stored, and the request approved, in one transaction.
    pub record Delivered (later : ℕ) (i : ProofInput) (r : VerificationRequest) (s t : Store redis)
        : Type 0 where
      pub proof : HolderProof
      pub seen : Db
      pub rounds : Rounds prisma crypto signing sign_for_user i s.db seen
      pub signed_at : Db
      pub signed : SignedBy prisma crypto signing sign_for_user i seen proof signed_at
      pub approval :
          Approved prisma redis later i proof r (others (record s { db = signed_at })).db t.db

    pub commit_approval_ok :
        (later : ℕ) (i : ProofInput) (r : VerificationRequest) (claims : List String)
        (s : Store redis) (out : ApprovedRequest) (t : Store redis)
        → commit_approval prisma redis crypto sign_for_user Plain decrypt parse others signing later
            i r claims s
          ≡ (ok out, t)
        → (out ≡ record {
          presentation_id = i.presentation_id;
          request_id = r.id;
          disclosed_claims = i.disclosed_claims;
        })
          × Delivered later i r s t
    unfolding commit_approval
    commit_approval_ok later i r claims s out t h =
        let out' : ApprovedRequest = record {
          presentation_id = i.presentation_id;
          request_id = r.id;
          disclosed_claims = i.disclosed_claims;
        } in
        let run : HolderProof → Action (Store redis) Presentation =
          λ p. on_db redis (prisma.transaction (approve_body prisma redis later i p r claims)) in
        let (p, u, proved, h1) =
          bind_inv (on_db redis (create_holder_proof prisma crypto signing sign_for_user i))
            (λ p. modify others >> (run p >> pure out')) s out t h in
        let (a, v, ran, h2) = bind_inv (run p) (λ _. pure out') (others u) out t h1 in
        let end : v ≡ t = ap (λ x. x.1) h2 in
        let done =
          settle_ok (others u).db (approve_body prisma redis later i p r claims (others u).db) a
            v.db
            (sym (
                prisma.transaction_lem (approve_body prisma redis later i p r claims) (others u).db)
              ∙ on_db_ok (prisma.transaction (approve_body prisma redis later i p r claims))
                  (others u) a v ran) in
        let (seen, rounds, signed) =
          create_holder_proof-SignedBy prisma crypto signing sign_for_user i s.db p u.db
            (on_db_ok (create_holder_proof prisma crypto signing sign_for_user i) s p u proved) in
        let left : u ≡ record s { db = u.db } =
          on_db_cache (create_holder_proof prisma crypto signing sign_for_user i) s p u proved in
        (
          ground arith,
          record {
            proof = p;
            seen = seen;
            rounds = rounds;
            signed_at = u.db;
            signed = signed;
            approval =
                subst (λ w. Approved prisma redis later i p r (others w).db t.db) left
                  (subst (λ t. Approved prisma redis later i p r (others u).db t.db) end
                    (approve_body_ok prisma redis later i p r claims (others u).db a v.db done));
          },
        )

    -- Whether a call of `approve` that succeeds has delivered what it returns.
    pub record Delivery (presentation_id now created_at later : ℕ)
        (input : ApproveVerificationRequestInput) (s : Store redis) (out : ApprovedRequest)
        (t : Store redis) : Type 0 where
      pub active : Active
      pub granted : Approval
      pub request : Open prisma redis input.request_id input.holder_id now s active
      pub disclosed : Disclosed input active.request.requested_claims granted s
      pub returned : out ≡ record {
        presentation_id = presentation_id;
        request_id = active.request.id;
        disclosed_claims = granted.disclosed_claims;
      }
      pub delivered :
          Delivered later
            (proof_input presentation_id created_at input active granted)
            active.request
            s
            t

    -- An approval that succeeds is of a stored request of this holder that is pending and not expired,
    -- whose session names the same holder and application. The approved claims are the trimmed input, not
    -- empty and distinct, and each stands in the list that this request has stored; what is returned as
    -- disclosed was selected from the credential in the holder's own wallet. The presentation with these
    -- claims is signed, in some round of the loop, by the current key of the holder's stored DID, over
    -- the hashes of this presentation and of its configuration; in the state that the other requests
    -- leave after that, it is stored in one transaction with the change to APPROVED of the one request
    -- that is still pending, of this holder and not expired.
    pub approve_ok :
        (presentation_id now created_at later : ℕ) (input : ApproveVerificationRequestInput)
        (s : Store redis) (out : ApprovedRequest) (t : Store redis)
        → approve prisma redis crypto sign_for_user Plain decrypt parse others signing
            presentation_id now created_at later input s
          ≡ (ok out, t)
        → Delivery presentation_id now created_at later input s out t
    unfolding approve
    approve_ok presentation_id now created_at later input s out t h =
        let commit : Active → Approval → Action (Store redis) ApprovedRequest = λ a x.
          commit_approval prisma redis crypto sign_for_user Plain decrypt parse others signing later
            (proof_input presentation_id created_at input a x) a.request x.approved_claims in
        let prepare : Active → Action (Store redis) Approval =
          prepare_approval prisma redis crypto sign_for_user Plain decrypt parse input in
        let (a, u, first, h1) =
          bind_inv (active_request prisma redis input.request_id input.holder_id now)
            (λ a. prepare a >>= commit a) s out t h in
        let (x, v, second, h2) = bind_inv (prepare a) (commit a) u out t h1 in
        let (returned, delivered) =
          commit_approval_ok later (proof_input presentation_id created_at input a x) a.request
            x.approved_claims v out t h2 in
        let (found, e1) =
          active_request_ok prisma redis input.request_id input.holder_id now s a u first in
        let (disclosed, e2) = prepare_approval_ok input a u x v second in
        record {
          active = a;
          granted = x;
          request = found;
          disclosed = subst (Disclosed input a.request.requested_claims x) e1 disclosed;
          returned = returned;
          delivered =
              subst
                (λ w.
                  Delivered later (proof_input presentation_id created_at input a x) a.request w t)
                (e2 ∙ e1) delivered;
        }
