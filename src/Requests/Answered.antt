-- ===== src/Requests/Answered.antt =====
-- Requests and their presentations, as the tables of prisma/schema.prisma hold them: the invariant of
-- the methods of src/verification-requests/verification-requests.service.ts.
use ssi_academic_credential.Common.{
  ℕ, Bool, true, false, List, [], ◌∷◌, ◌≡◌, ◌≢◌, inl, inr, arith, In, All, count, map_where, any,
  Bool-cases, Distinct, Fresh, count-pos,
}
use ssi_academic_credential.Database.{
  Db, VerificationRequest, VerificationRequestStatus, Presentation,
}
use ssi_academic_credential.Requests.Service.{request_clash, presentation_clash}

-- The statuses of a request that the holder has approved: verification moves it on from APPROVED.
abbrev pub granted : VerificationRequestStatus → Bool
granted VerificationRequestStatus.approved = true
granted VerificationRequestStatus.verified = true
granted VerificationRequestStatus.failed = true
granted _ = false

-- Those of a request that has a presentation: an approved request may also expire.
abbrev pub reached : VerificationRequestStatus → Bool
reached VerificationRequestStatus.expired = true
reached st = granted st

-- A request `k` stands in the table with a status that `q` allows.
abbrev pub Stands : (VerificationRequestStatus → Bool) → ℕ → List VerificationRequest → Type 0
Stands q k t = (r : VerificationRequest) × In r t × (r.id ≡ k) × (q r.status ≡ true)

abbrev pub Presented : ℕ → List Presentation → Type 0
Presented k t = (p : Presentation) × In p t × (p.request_id ≡ k)

abbrev pub Explained : List VerificationRequest → List Presentation → Type 0
Explained rs ps = All (λ r. granted r.status ≡ true → Presented r.id ps) rs

pub record Answered (d : Db) : Type 0 where
  pub keys : Distinct (λ r. r.id) d.verification_requests
  pub once : Distinct (λ p. p.request_id) d.presentations
  pub approved : All (λ p. Stands reached p.request_id d.verification_requests) d.presentations
  pub explained : Explained d.verification_requests d.presentations

module _ (p : VerificationRequest → Bool) (f : VerificationRequest → VerificationRequest) where
  In-map_where :
      (t : List VerificationRequest) (r : VerificationRequest)
      → In r t
      → p r ≡ false
      → In r (map_where p f t)
  In-map_where [] r i h = i
  In-map_where (x ∷ t) r (inl e) h = inl (ground arith)
  In-map_where (x ∷ t) r (inr i) h = inr (In-map_where t r i h)

  In-of_map_where :
      (t : List VerificationRequest) (r : VerificationRequest)
      → In r t
      → p r ≡ true
      → In (f r) (map_where p f t)
  In-of_map_where [] r i h = i
  In-of_map_where (x ∷ t) r (inl e) h = inl (ground arith)
  In-of_map_where (x ∷ t) r (inr i) h = inr (In-of_map_where t r i h)

  -- A change of rows that `q` does not allow leaves those that it allows.
  pub Stands-map_where :
      (q : VerificationRequestStatus → Bool)
      → ((r : VerificationRequest) → p r ≡ true → q r.status ≡ false)
      → (k : ℕ) (t : List VerificationRequest) → Stands q k t
      → Stands q k (map_where p f t)
  Stands-map_where q out k t (r, i, e, s) = elim (Bool-cases (p r)) [
    | inl u ↦ absurd (ground (arith, out r u))
    | inr u ↦ (r, In-map_where t r i u, e, s)
  ]

  pub Stands-of_map_where :
      (q : VerificationRequestStatus → Bool) (k : ℕ) (t : List VerificationRequest)
      → ((r : VerificationRequest) → p r ≡ true → ((f r).id ≡ k) × (q (f r).status ≡ true))
      → count p t ≢ 0
      → Stands q k (map_where p f t)
  Stands-of_map_where q k t fits n =
      let (r, i, e) = count-pos p t n in
      let (a, b) = fits r e in (f r, In-of_map_where t r i e, a, b)

  pub Explained-map_where :
      (ps : List Presentation)
      → ((r : VerificationRequest)
          → p r ≡ true
          → granted (f r).status ≡ true
          → Presented (f r).id ps)
      → (t : List VerificationRequest) → Explained t ps
      → Explained (map_where p f t) ps
  Explained-map_where ps new [] h = tt
  Explained-map_where ps new (x ∷ t) h = elim (Bool-cases (p x)) [
    | inl e ↦ rw e (new x e, Explained-map_where ps new t h.1)
    | inr e ↦ rw e (h.0, Explained-map_where ps new t h.1)
  ]

pub Explained-more :
    (ps : List Presentation) (p : Presentation) (t : List VerificationRequest)
    → Explained t ps
    → Explained t (p ∷ ps)
Explained-more ps p [] h = tt
Explained-more ps p (x ∷ t) h =
    ((λ g. let (q, i, e) = h.0 g in (q, inr i, e)), Explained-more ps p t h.1)

pub All-Stands :
    (rs ss : List VerificationRequest)
    → ((k : ℕ) → Stands reached k rs → Stands reached k ss)
    → (ps : List Presentation) → All (λ p. Stands reached p.request_id rs) ps
    → All (λ p. Stands reached p.request_id ss) ps
All-Stands rs ss f [] h = tt
All-Stands rs ss f (p ∷ ps) h = (f p.request_id h.0, All-Stands rs ss f ps h.1)

pub Stands-more :
    (q : VerificationRequestStatus → Bool) (x : VerificationRequest) (t : List VerificationRequest)
    (k : ℕ)
    → Stands q k t
    → Stands q k (x ∷ t)
Stands-more q x t k (r, i, e, s) = (r, inr i, e, s)

pub clash-Fresh :
    (p : Presentation) (ps : List Presentation)
    → any (presentation_clash p) ps ≡ false
    → Fresh (λ q. q.request_id) p.request_id ps
clash-Fresh p [] h = tt
clash-Fresh p (q ∷ ps) h = (ground arith, clash-Fresh p ps (ground arith))

pub request_clash-Fresh :
    (r : VerificationRequest) (t : List VerificationRequest)
    → any (request_clash r) t ≡ false
    → Fresh (λ q. q.id) r.id t
request_clash-Fresh r [] h = tt
request_clash-Fresh r (q ∷ t) h = (ground arith, request_clash-Fresh r t (ground arith))
