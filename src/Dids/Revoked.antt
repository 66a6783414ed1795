-- ===== src/Dids/Revoked.antt =====
-- A revoked key, under every method of src/did/did.service.ts that writes.
use ssi_academic_credential.Common.{
  ℕ, ◌+◌, String, Bool, true, false, List, [], ◌∷◌, Option, err, ◌≡◌, refl, sym, subst, ap, ◌∙◌,
  arith, inl, inr, ◌==◌, if◌then◌else◌, In, All, count, map_where, any, any_never, Bool-cases,
  Option-cases, Yields,
}
use ssi_academic_credential.Prisma.{Prisma}
use ssi_academic_credential.Database.{
  Db, Did, DidOwnerType, DidStatus, did_status_eq, DidKey, DidKeyStatus, did_key_status_eq,
}
use ssi_academic_credential.Dids.{
  SupportedSignatureAlgorithm, KeyMaterial, still_at, key_in_status, set_version, retire_key,
  revoke_key, did_clash, key_clash, new_key, key_at, find_key,
}
use ssi_academic_credential.Dids.Keys.{
  rotate_key_body, recover_key_body, revoke_key_body, create_did_body, new_did,
}
use ssi_academic_credential.Dids.Signing.{resolve_verification_method, no_method}
use ssi_academic_credential.Dids.Invariant.{All-In, In-All, In-map, map-In}
use ssi_academic_credential.Dids.Invariant.Calls.{Call, after, after-Kept}

module _ (did did_id version : ℕ) where
  -- The DID is stored under one identifier, which has a key of the version, and that key is revoked.
  pub record Dead (s : Db) : Type 0 where
    pub known : (d : Did) × In d s.dids × (d.did ≡ did)
    pub one_id : All (λ (d : Did). d.did ≡ did → d.id ≡ did_id) s.dids
    pub key : (k : DidKey) × In k s.did_keys × (key_at did_id version k ≡ true)
    pub revoked :
        All
          (λ (k : DidKey).
            key_at did_id version k ≡ true → did_key_status_eq k.status DidKeyStatus.revoked ≡ true)
          s.did_keys

  -- A change of rows that keeps the columns above.
  module _ (p : DidKey → Bool) (f : DidKey → DidKey)
      (idle : (k : DidKey) → did_key_status_eq k.status DidKeyStatus.revoked ≡ true → p k ≡ false)
      (place : (k : DidKey) → key_at did_id version (f k) ≡ key_at did_id version k) where
    changed_place :
        (k : DidKey) → key_at did_id version (if p k then f k else k) ≡ key_at did_id version k
    changed_place k = elim (Bool-cases (p k)) [ inl e ↦ rw e (place k) | inr e ↦ rw e refl ]

    changed_keys :
        (q : Did → Bool) (g : Did → Did) (s : Db)
        → ((d : Did) → (g d).id ≡ d.id)
        → ((d : Did) → (g d).did ≡ d.did)
        → Dead s
        → Dead (record s { dids = map_where q g s.dids; did_keys = map_where p f s.did_keys })
    changed_keys q g s id_kept did_kept v = record {
      known =
          let (d, i, e) = v.known in
          (if q d then g d else d, In-map q g s.dids d i, same_did d ∙ e);
      one_id =
          In-All (λ d. d.did ≡ did → d.id ≡ did_id) (map_where q g s.dids)
            (λ d i e.
              let (x, j, w) = map-In q g s.dids d i in
              ap (λ (y : Did). y.id) (sym w)
              ∙ same_id x
              ∙ All-In (λ (y : Did). y.did ≡ did → y.id ≡ did_id) s.dids x v.one_id j
                  (sym (same_did x) ∙ ap (λ (y : Did). y.did) w ∙ e));
      key =
          let (k, i, e) = v.key in
          (if p k then f k else k, In-map p f s.did_keys k i, changed_place k ∙ e);
      revoked =
          In-All
            (λ k.
              key_at did_id version k ≡ true
              → did_key_status_eq k.status DidKeyStatus.revoked ≡ true)
            (map_where p f s.did_keys)
            (λ k i e.
              let (x, j, w) = map-In p f s.did_keys k i in
              let dead =
                All-In
                  (λ (y : DidKey).
                    key_at did_id version y ≡ true
                    → did_key_status_eq y.status DidKeyStatus.revoked ≡ true)
                  s.did_keys x v.revoked j
                  (sym (changed_place x) ∙ ap (key_at did_id version) w ∙ e) in
              let off = idle x dead in
              subst (λ (y : DidKey). did_key_status_eq y.status DidKeyStatus.revoked ≡ true) w
                (rw off dead));
    }
      where
        same_id : (d : Did) → (if q d then g d else d).id ≡ d.id
        same_id d = elim (Bool-cases (q d)) [ inl e ↦ rw e (id_kept d) | inr e ↦ rw e refl ]

        same_did : (d : Did) → (if q d then g d else d).did ≡ d.did
        same_did d = elim (Bool-cases (q d)) [ inl e ↦ rw e (did_kept d) | inr e ↦ rw e refl ]

  -- A key that does not clash has another place.
  added_key :
      (new : DidKey) (s : Db)
      → any (key_clash new) s.did_keys ≡ false
      → Dead s
      → Dead (record s { did_keys = new ∷ s.did_keys })
  added_key new s free v = record {
    known = v.known;
    one_id = v.one_id;
    key = let (k, i, e) = v.key in (k, inr i, e);
    revoked = (λ e. absurd (let (k, i, w) = v.key in taken s.did_keys k i w e free), v.revoked);
  }
    where
      taken :
          (t : List DidKey) (k : DidKey)
          → In k t
          → key_at did_id version k ≡ true
          → key_at did_id version new ≡ true
          → any (key_clash new) t ≡ false
          → ⊥
      taken [] k i w e h = i
      taken (x ∷ t) k (inl i) w e h =
          let here = subst (λ y. key_at did_id version y ≡ true) (sym i) w in ground arith
      taken (x ∷ t) k (inr i) w e h = taken t k i w e (ground arith)

  -- A DID that does not clash has another name.
  added_did :
      (new : Did) (s : Db)
      → any (did_clash new) s.dids ≡ false
      → Dead s
      → Dead (record s { dids = new ∷ s.dids })
  added_did new s free v = record {
    known = let (d, i, e) = v.known in (d, inr i, e);
    one_id = (λ e. absurd (let (d, i, w) = v.known in taken s.dids d i w e free), v.one_id);
    key = v.key;
    revoked = v.revoked;
  }
    where
      taken :
          (t : List Did) (d : Did)
          → In d t
          → d.did ≡ did
          → new.did ≡ did
          → any (did_clash new) t ≡ false
          → ⊥
      taken [] d i w e h = i
      taken (x ∷ t) d (inl i) w e h =
          let here = subst (λ (y : Did). y.did ≡ did) (sym i) w in ground arith
      taken (x ∷ t) d (inr i) w e h = taken t d i w e (ground arith)

  -- The other columns of the database do not matter.
  logged : (s t : Db) → s.dids ≡ t.dids → s.did_keys ≡ t.did_keys → Dead s → Dead t
  logged s t a b v = record {
    known = subst (λ (x : List Did). (d : Did) × In d x × (d.did ≡ did)) a v.known;
    one_id = subst (All (λ (d : Did). d.did ≡ did → d.id ≡ did_id)) a v.one_id;
    key =
        subst (λ (x : List DidKey). (k : DidKey) × In k x × (key_at did_id version k ≡ true)) b
          v.key;
    revoked =
        subst
          (All (λ (k : DidKey).
            key_at did_id version k ≡ true
            → did_key_status_eq k.status DidKeyStatus.revoked ≡ true))
          b v.revoked;
  }

  not_revoked :
      (st : DidKeyStatus)
      → did_key_status_eq st DidKeyStatus.revoked ≡ true
      → (did_key_status_eq st DidKeyStatus.active ≡ false)
        × (did_key_status_eq st DidKeyStatus.retired ≡ false)
  not_revoked DidKeyStatus.active h = cc
  not_revoked DidKeyStatus.retired h = cc
  not_revoked DidKeyStatus.revoked h = (refl, refl)

  spares_active :
      (id n : ℕ) (k : DidKey)
      → did_key_status_eq k.status DidKeyStatus.revoked ≡ true
      → key_in_status id n DidKeyStatus.active k ≡ false
  spares_active id n k h = let q = not_revoked k.status h in ground arith

  spares_retired :
      (id n : ℕ) (k : DidKey)
      → did_key_status_eq k.status DidKeyStatus.revoked ≡ true
      → key_in_status id n DidKeyStatus.retired k ≡ false
  spares_retired id n k h = let q = not_revoked k.status h in ground arith

  module _ (prisma : Prisma) where
    rotates_Dead :
        (now : ℕ) (d : Did) (owner_type : DidOwnerType) (owner_id : ℕ) (actor : Option ℕ)
        (alg : SupportedSignatureAlgorithm) (fresh : KeyMaterial)
        → Yields Dead (rotate_key_body prisma now d owner_type owner_id actor alg fresh)
    unfolding rotate_key_body
    rotates_Dead now d owner_type owner_id actor alg fresh s a t h v =
        let new = new_key d.id (d.current_key_version + 1) alg fresh in
        let old = key_in_status d.id d.current_key_version DidKeyStatus.active in
        let changed =
          changed_keys old (retire_key now) (spares_active d.id d.current_key_version) (λ _. refl)
            (still_at d.id d.current_key_version) (set_version (d.current_key_version + 1)) s
            (λ _. refl) (λ _. refl) v in
        elim (Bool-cases (count (still_at d.id d.current_key_version) s.dids == 1)) [
          | inr e ↦ absurd (let q = simp (prisma.update_many_lem, e) at h in ground arith)
          | inl e ↦
              elim (Bool-cases (
                count (key_in_status d.id d.current_key_version DidKeyStatus.active) s.did_keys
                == 1)) [
                  | inr f ↦
                      absurd (let q = simp (prisma.update_many_lem, e, f) at h in ground arith)
                  | inl f ↦
                      elim (Bool-cases
                        (any (key_clash new) (map_where old (retire_key now) s.did_keys))) [
                          | inl g ↦ absurd (
                              let q =
                                simp (prisma.update_many_lem, e, f, prisma.create_lem, g) at h in
                              ground arith)
                          | inr g ↦
                              let q =
                                simp (prisma.update_many_lem, e, f, prisma.create_lem, g, any_never)
                                  at h in
                              let w = ap (λ x. x.1) q in
                              logged _ t (ap (λ (x : Db). x.dids) w) (ap (λ (x : Db). x.did_keys) w)
                                (added_key new _ g changed)
                        ]
                ]
        ]

    recovers_Dead :
        (now : ℕ) (d : Did) (owner_type : DidOwnerType) (owner_id actor : ℕ) (r : Option String)
        (alg : SupportedSignatureAlgorithm) (fresh : KeyMaterial)
        → Yields Dead (recover_key_body prisma now d owner_type owner_id actor r alg fresh)
    unfolding recover_key_body
    recovers_Dead now d owner_type owner_id actor r alg fresh s a t h v =
        let new = new_key d.id (d.current_key_version + 1) alg fresh in
        let old = key_in_status d.id d.current_key_version DidKeyStatus.active in
        let changed =
          changed_keys old (revoke_key now) (spares_active d.id d.current_key_version) (λ _. refl)
            (still_at d.id d.current_key_version) (set_version (d.current_key_version + 1)) s
            (λ _. refl) (λ _. refl) v in
        elim (Bool-cases (count (still_at d.id d.current_key_version) s.dids == 1)) [
          | inr e ↦ absurd (let q = simp (prisma.update_many_lem, e) at h in ground arith)
          | inl e ↦
              elim (Bool-cases (
                count (key_in_status d.id d.current_key_version DidKeyStatus.active) s.did_keys
                == 1)) [
                  | inr f ↦
                      absurd (let q = simp (prisma.update_many_lem, e, f) at h in ground arith)
                  | inl f ↦
                      elim (Bool-cases
                        (any (key_clash new) (map_where old (revoke_key now) s.did_keys))) [
                          | inl g ↦ absurd (
                              let q =
                                simp (prisma.update_many_lem, e, f, prisma.create_lem, g) at h in
                              ground arith)
                          | inr g ↦
                              let q =
                                simp (prisma.update_many_lem, e, f, prisma.create_lem, g, any_never)
                                  at h in
                              let w = ap (λ x. x.1) q in
                              logged _ t (ap (λ (x : Db). x.dids) w) (ap (λ (x : Db). x.did_keys) w)
                                (added_key new _ g changed)
                        ]
                ]
        ]

    revokes_Dead :
        (now : ℕ) (d : Did) (owner_type : DidOwnerType) (owner_id n actor : ℕ) (r : Option String)
        → Yields Dead (revoke_key_body prisma now d n owner_type owner_id actor r)
    unfolding revoke_key_body
    revokes_Dead now d owner_type owner_id n actor r s a t h v =
        elim (Bool-cases (count (key_in_status d.id n DidKeyStatus.retired) s.did_keys == 1)) [
          | inr e ↦ absurd (let q = simp (prisma.update_many_lem, e) at h in ground arith)
          | inl e ↦
              let q = simp (prisma.update_many_lem, e, prisma.create_lem, any_never) at h in
              let w = ap (λ x. x.1) q in
              logged _ t (unmapped s.dids ∙ ap (λ (x : Db). x.dids) w)
                (ap (λ (x : Db). x.did_keys) w)
                (changed_keys (key_in_status d.id n DidKeyStatus.retired) (revoke_key now)
                  (spares_retired d.id n) (λ _. refl) (λ _. false) (λ d. d) s (λ _. refl)
                  (λ _. refl) v)
        ]
      where
        unmapped : (t : List Did) → map_where (λ _. false) (λ d. d) t ≡ t
        unmapped [] = refl
        unmapped (x ∷ t) = ap (λ y. x ∷ y) (unmapped t)

    creates_Dead :
        (id name : ℕ) (owner_type : DidOwnerType) (owner_id : ℕ) (alg : SupportedSignatureAlgorithm)
        (fresh : KeyMaterial)
        → Yields Dead (create_did_body prisma id name owner_type owner_id alg fresh)
    unfolding create_did_body
    creates_Dead id name owner_type owner_id alg fresh s a t h v =
        elim (Bool-cases (any (did_clash (new_did id name owner_id owner_type)) s.dids)) [
          | inl e ↦ absurd (let q = simp (prisma.create_lem, e) at h in ground arith)
          | inr e ↦ elim (Bool-cases (any (key_clash (new_key id 1 alg fresh)) s.did_keys)) [
            | inl f ↦ absurd (let q = simp (prisma.create_lem, e, f) at h in ground arith)
            | inr f ↦
                let q = simp (prisma.create_lem, e, f, any_never) at h in
                let w = ap (λ x. x.1) q in
                logged _ t (ap (λ (x : Db). x.dids) w) (ap (λ (x : Db). x.did_keys) w) (
                  added_key (new_key id 1 alg fresh) _ f
                    (added_did (new_did id name owner_id owner_type) s e v))
          ]
        ]

    -- The method of a revoked key does not resolve.
    unresolved :
        (s : Db)
        → Dead s
        → (resolve_verification_method prisma did (record { did = did; key_version = version }) s).0
          ≡ err no_method
    unfolding resolve_verification_method
    unresolved s v = elim (Option-cases (prisma.find_first (λ (d : Did). d.did == did) s.dids)) [
      | inl e ↦ ground arith
      | inr (d, e) ↦ elim (Bool-cases (did_status_eq d.status DidStatus.active)) [
        | inr a ↦ ground arith
        | inl a ↦ elim (Bool-cases (version == 0)) [
          | inl z ↦ ground arith
          | inr z ↦ elim (Option-cases (find_key prisma d.id version s)) [
            | inl f ↦ ground arith
            | inr (k, f) ↦
                let (named, i) = prisma.find_first-some _ _ _ e in
                let (placed, j) = prisma.find_first-some _ _ _ f in
                let same =
                  All-In (λ (y : Did). y.did ≡ did → y.id ≡ did_id) s.dids d v.one_id i
                    (ground arith) in
                let dead =
                  All-In
                    (λ (y : DidKey).
                      key_at did_id version y ≡ true
                      → did_key_status_eq y.status DidKeyStatus.revoked ≡ true)
                    s.did_keys k v.revoked j (subst (λ x. key_at x version k ≡ true) same placed) in
                ground arith
          ]
        ]
      ]
    ]

    -- Once a key is revoked, its verification method does not resolve after any method of the service
    -- that writes, if the other requests leave it revoked and its DID stored under one identifier.
    pub after-unresolved :
        (others : Db → Db)
        → ((s : Db) → Dead s → Dead (others s))
        → (c : Call) (s : Db) → Dead s
        → (resolve_verification_method prisma did
            (record { did = did; key_version = version })
            (after prisma others c s)).0
          ≡ err no_method
    after-unresolved others keep c s v = unresolved (after prisma others c s) (
        after-Kept prisma others Dead keep
          (record {
            creates = creates_Dead;
            rotates = rotates_Dead;
            recovers = recovers_Dead;
            revokes = revokes_Dead;
          })
          c s v)
