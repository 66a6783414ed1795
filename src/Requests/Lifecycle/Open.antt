-- ===== src/Requests/Lifecycle/Open.antt =====
-- The checks that `approve` and `reject` of src/verification-requests/verification-requests.service.ts
-- start with: which request they let through.
use ssi_academic_credential.Common.{
  ℕ, some, Action, ok, ◌≡◌, refl, ◌>>=◌, ◌>>◌, bind_inv, Bool-cases, Option-cases, inl, inr, arith,
  true, not, ◌||◌, ◌==◌, In, sym, ◌∙◌, ap, subst, ◌<◌, leb, raise, Error, bad_request,
}
use ssi_academic_credential.Prisma.{Prisma}
use ssi_academic_credential.Database.{
  VerificationRequestStatus, verification_request_status_eq, VerificationRequest,
}
use ssi_academic_credential.Requests.State.{Redis, Store, VerificationSession}
use ssi_academic_credential.Requests.Service.{ensure_pending_and_active, of_holder, expire_request}
use ssi_academic_credential.Requests.Answer.{
  Active, active_request, find_request, session_of, session_or_expire, check_session,
}

pending_lem :
    (a : VerificationRequestStatus)
    → verification_request_status_eq a VerificationRequestStatus.pending ≡ true
    → a ≡ VerificationRequestStatus.pending
pending_lem VerificationRequestStatus.pending h = refl
pending_lem VerificationRequestStatus.approved h = absurd (cc)
pending_lem VerificationRequestStatus.rejected h = absurd (cc)
pending_lem VerificationRequestStatus.expired h = absurd (cc)
pending_lem VerificationRequestStatus.verified h = absurd (cc)
pending_lem VerificationRequestStatus.failed h = absurd (cc)

raised :
    {S A B : Type 0} (m : Action S A) (e : Error) (s : S) (b : B) (t : S)
    → (m >> raise e) s ≡ (ok b, t)
    → ⊥
raised {S} {A} {B} m e s b t h =
    let (a, u, _, q) = bind_inv m (λ _. raise {S = S} {A = B} e) s b t h in absurd (cc)

module _ (prisma : Prisma) (redis : Redis) where
  -- A stored request of this holder that is pending and not expired, and its session, which names the
  -- same holder and application.
  pub record Open (id holder_id now : ℕ) (s : Store redis) (a : Active) : Type 0 where
    pub stored : In a.request s.db.verification_requests
    pub named : a.request.id ≡ id
    pub own : a.request.holder_id ≡ holder_id
    pub pending : a.request.status ≡ VerificationRequestStatus.pending
    pub in_time : now < a.request.expires_at
    pub session : redis.get_json a.request.id s.cache ≡ some a.session
    pub session_own : a.session.holder_id ≡ holder_id
    pub session_application : a.session.application_id ≡ a.request.application_id

  find_request_ok :
      (id holder_id : ℕ) (s : Store redis) (r : VerificationRequest) (u : Store redis)
      → find_request prisma redis id holder_id s ≡ (ok r, u)
      → In r s.db.verification_requests × (r.id ≡ id) × (r.holder_id ≡ holder_id) × (u ≡ s)
  unfolding find_request
  find_request_ok id holder_id s r u h =
      elim (Option-cases (prisma.find_first (of_holder id holder_id) s.db.verification_requests)) [
        | inl e ↦ absurd (ground arith)
        | inr (x, e) ↦
            let (fits, stored) = prisma.find_first-some _ _ _ e in
            let same : x ≡ r = ground arith in
            let own : (x.id ≡ id) × (x.holder_id ≡ holder_id) = (ground arith, ground arith) in
            (
              subst (λ r. In r s.db.verification_requests) same stored,
              subst (λ r. r.id ≡ id) same own.0,
              subst (λ r. r.holder_id ≡ holder_id) same own.1,
              ground arith,
            )
      ]

  ensure_ok :
      (now : ℕ) (r : VerificationRequest) (s : Store redis) (n : Unit {0}) (u : Store redis)
      → ensure_pending_and_active prisma redis now r s ≡ (ok n, u)
      → (r.status ≡ VerificationRequestStatus.pending) × (now < r.expires_at) × (u ≡ s)
  unfolding ensure_pending_and_active
  ensure_ok now r s n u h =
      elim (Bool-cases
        (verification_request_status_eq r.status VerificationRequestStatus.pending)) [
          | inr e ↦ absurd (ground arith)
          | inl e ↦ elim (Bool-cases (leb r.expires_at now)) [
            | inl q ↦ absurd (
                raised (expire_request prisma redis r.id)
                  (bad_request "Verification request has expired") s n u (ground arith))
            | inr q ↦ (pending_lem r.status e, ground arith, ground arith)
          ]
        ]

  session_ok :
      (id : ℕ) (s : Store redis) (x : VerificationSession) (u : Store redis)
      → session_of prisma redis id s ≡ (ok x, u)
      → (redis.get_json id s.cache ≡ some x) × (u ≡ s)
  unfolding session_of session_or_expire
  session_ok id s x u h = elim (Option-cases (redis.get_json id s.cache)) [
    | inl e ↦ absurd (
        raised (expire_request prisma redis id) (bad_request "Verification request has expired") s x
          u (ground arith))
    | inr (y, e) ↦ let same : y ≡ x = ground arith in (e ∙ ap some same, ground arith)
  ]

  check_session_ok :
      (holder_id : ℕ) (r : VerificationRequest) (session : VerificationSession) (s : Store redis)
      (a : Active) (u : Store redis)
      → check_session prisma redis holder_id r session s ≡ (ok a, u)
      → (a ≡ record { request = r; session = session })
        × (session.holder_id ≡ holder_id)
        × (session.application_id ≡ r.application_id)
        × (u ≡ s)
  unfolding check_session
  check_session_ok holder_id r session s a u h =
      elim (Bool-cases (
        not (session.holder_id == holder_id) || not (session.application_id == r.application_id))) [
          | inl e ↦ absurd (ground arith)
          | inr e ↦ (ground arith, ground arith, ground arith, ground arith)
        ]

  pub active_request_ok :
      (id holder_id now : ℕ) (s : Store redis) (a : Active) (u : Store redis)
      → active_request prisma redis id holder_id now s ≡ (ok a, u)
      → Open id holder_id now s a × (u ≡ s)
  unfolding active_request
  active_request_ok id holder_id now s a u h =
      let check = check_session prisma redis holder_id in
      let (r, v, found, h1) =
        bind_inv (find_request prisma redis id holder_id)
          (λ r.
            ensure_pending_and_active prisma redis now r
            >> (session_of prisma redis r.id >>= check r))
          s a u h in
      let (n, w, ensured, h2) =
        bind_inv (ensure_pending_and_active prisma redis now r)
          (λ _. session_of prisma redis r.id >>= check r) v a u h1 in
      let (x, y, kept, h3) = bind_inv (session_of prisma redis r.id) (check r) w a u h2 in
      let (stored, named, own, e1) = find_request_ok id holder_id s r v found in
      let (pending, in_time, e2) = ensure_ok now r v n w ensured in
      let (session, e3) = session_ok r.id w x y kept in
      let (made, session_own, application, e4) = check_session_ok holder_id r x y a u h3 in
      let before : w ≡ s = e2 ∙ e1 in
      (
        subst (Open id holder_id now s) (sym made) (record {
          stored = stored;
          named = named;
          own = own;
          pending = pending;
          in_time = in_time;
          session = subst (λ s. redis.get_json r.id s.cache ≡ some x) before session;
          session_own = session_own;
          session_application = application;
        }),
        e4 ∙ e3 ∙ before,
      )
