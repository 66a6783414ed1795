-- ===== src/Dids/Invariant/Step.antt =====
-- A change of the current key, and a new DID, keep the invariant.
use ssi_academic_credential.Common.{
  ℕ, ◌+◌, Bool, true, false, List, [], ◌∷◌, ◌≡◌, refl, sym, subst, ap, ◌∙◌, arith, inl, inr,
  if◌then◌else◌, In, All, Distinct, Fresh, Distinct-map_where, Fresh-In, count, map_where, any,
  Bool-cases, count-pos,
}
use ssi_academic_credential.Database.{Db, Did, DidKey, DidKeyStatus, did_key_status_eq, AuditLog}
use ssi_academic_credential.Dids.{still_at, key_in_status, is_active, set_version, did_clash}
use ssi_academic_credential.Dids.Invariant.{
  Current, Bounded, KeysOf, Owned, Keyed, All-In, In-All, In-map, map-In,
}

active_eq :
    (st : DidKeyStatus) → did_key_status_eq st DidKeyStatus.active ≡ true → st ≡ DidKeyStatus.active
active_eq DidKeyStatus.active h = refl
active_eq DidKeyStatus.retired h = cc
active_eq DidKeyStatus.revoked h = cc

-- The current key of the DID `id` at `version` is closed by `close`, and the next one opened.
module _ (id version : ℕ) (close : DidKey → DidKey)
    (close-id : (k : DidKey) → (close k).did_id ≡ k.did_id)
    (close-version : (k : DidKey) → (close k).version ≡ k.version)
    (closed : (k : DidKey) → is_active (close k) ≡ false) (new : DidKey) (new-id : new.did_id ≡ id)
    (new-version : new.version ≡ version + 1) (new-active : is_active new ≡ true) where
  abbrev turned : Did → Bool
  turned = still_at id version

  abbrev ended : DidKey → Bool
  ended = key_in_status id version DidKeyStatus.active

  abbrev pub next_dids : List Did → List Did
  next_dids dids = map_where turned (set_version (version + 1)) dids

  abbrev pub next_keys : List DidKey → List DidKey
  next_keys keys = new ∷ map_where ended close keys

  module _ (s : Db) (v : Keyed s) (one : count turned s.dids ≡ 1) where
    -- Only this DID is turned.
    only : (d : Did) → In d s.dids → d.id ≡ id → turned d ≡ true
    only d i e =
        let (x, j, q) = count-pos turned s.dids (omega arith) in
        subst (λ y. turned y ≡ true) (same_id s.dids v.ids x d j i (ground arith)) q
      where
        same_id :
            (t : List Did)
            → Distinct (λ (d : Did). d.id) t
            → (x d : Did) → In x t
            → In d t
            → x.id ≡ d.id
            → x ≡ d
        same_id [] h x d i j e = absurd i
        same_id (y ∷ t) h x d (inl i) (inl j) e = sym i ∙ j
        same_id (y ∷ t) h x d (inl i) (inr j) e =
            absurd (Fresh-In (λ (d : Did). d.id) y.id t d h.0 j (sym e ∙ ap (λ z. z.id) (sym i)))
        same_id (y ∷ t) h x d (inr i) (inl j) e =
            absurd (Fresh-In (λ (d : Did). d.id) y.id t x h.0 i (e ∙ ap (λ z. z.id) (sym j)))
        same_id (y ∷ t) h x d (inr i) (inr j) e = same_id t h.1 x d i j e

    -- What the keys of a DID are afterwards.
    bounded :
        (d : Did)
        → In d s.dids
        → (k : DidKey) → In k s.did_keys
        → Bounded
            (if turned d then set_version (version + 1) d else d)
            (if ended k then close k else k)
    bounded d i k j =
        let old =
          All-In (Bounded d) s.did_keys k (All-In (KeysOf s.did_keys) s.dids d v.keys i).1 j in
        elim (Bool-cases (turned d)) [
          | inr t ↦ elim (Bool-cases (ended k)) [
            | inl e ↦
                rw (t, e)
                  (λ q. absurd (let w = only d i (ground (arith, close-id k)) in ground arith))
            | inr e ↦ rw (t, e) old
          ]
          | inl t ↦ elim (Bool-cases (ended k)) [
            | inl e ↦
                rw (t, e)
                  (λ q. (ground (arith, close-version k), λ a. absurd (ground (arith, closed k))))
            | inr e ↦
                rw (t, e)
                  (λ q.
                    let (low, act) = old q in
                    (ground arith, λ a. let w = act a in absurd (ground arith)))
          ]
        ]

    step_key : DidKey → DidKey
    step_key k = if ended k then close k else k

    step_did : Did → Did
    step_did d = if turned d then set_version (version + 1) d else d

    step_did-id : (d : Did) → (step_did d).id ≡ d.id
    unfolding step_did
    step_did-id d = elim (Bool-cases (turned d)) [ inl t ↦ rw t refl | inr t ↦ rw t refl ]

    bounds_kept : (d : Did) → In d s.dids → All (Bounded (step_did d)) (next_keys s.did_keys)
    unfolding step_did
    bounds_kept d i = (
      new_bounded,
      In-All _ _ (λ b j.
          let (k, l, e) = map-In ended close s.did_keys b j in
          subst (Bounded (step_did d)) e (bounded d i k l)),
    )
      where
        new_bounded : Bounded (step_did d) new
        new_bounded = elim (Bool-cases (turned d)) [
          | inl t ↦ rw t (λ q. (ground arith, λ a. ground arith))
          | inr t ↦ rw t (λ q. absurd (let w = only d i (ground arith) in ground arith))
        ]

    current : (d : Did) → In d s.dids → Current (step_did d) (next_keys s.did_keys)
    unfolding step_did
    current d i = elim (Bool-cases (turned d)) [
      | inl t ↦ rw t (new, inl refl, ground arith, new-version, new-active)
      | inr t ↦
          let (k, j, e, u, a) = (All-In (KeysOf s.did_keys) s.dids d v.keys i).0 in
          elim (Bool-cases (ended k)) [
            | inl z ↦ absurd (let w = only d i (ground arith) in ground arith)
            | inr z ↦
                let kept : (if ended k then close k else k) ≡ k = rw z refl in
                rw t (
                  k,
                  inr (
                      subst (λ x. In x (map_where ended close s.did_keys)) kept
                        (In-map ended close s.did_keys k j)),
                  e,
                  u,
                  a,
                )
          ]
    ]

    owner : (k : DidKey) → Owned s.dids k → Owned (next_dids s.dids) k
    unfolding step_did
    owner k (d, i, e) =
        (step_did d, In-map turned (set_version (version + 1)) s.dids d i, step_did-id d ∙ e)

    step_key-id : (k : DidKey) → (step_key k).did_id ≡ k.did_id
    unfolding step_key
    step_key-id k = elim (Bool-cases (ended k)) [ inl t ↦ rw t (close-id k) | inr t ↦ rw t refl ]

    pub next-Keyed :
        (logs : List AuditLog)
        → Keyed (record s {
          dids = next_dids s.dids;
          did_keys = next_keys s.did_keys;
          audit_logs = logs;
        })
    unfolding step_key step_did
    next-Keyed logs =
        let (x, j, q) = count-pos turned s.dids (omega arith) in
        record {
          ids =
              Distinct-map_where (λ (d : Did). d.id) turned (set_version (version + 1)) (λ _. refl)
                s.dids v.ids;
          keys = In-All (KeysOf (next_keys s.did_keys)) (next_dids s.dids) (λ b i.
              let (d, l, e) = map-In turned (set_version (version + 1)) s.dids b i in
              subst (KeysOf (next_keys s.did_keys)) e (current d l, bounds_kept d l));
          belongs = (
            owner new (x, j, ground arith),
            In-All (Owned (next_dids s.dids)) (map_where ended close s.did_keys) (λ b i.
                let (k, l, e) = map-In ended close s.did_keys b i in
                let (d, m, f) = All-In (Owned s.dids) s.did_keys k v.belongs l in
                subst (Owned (next_dids s.dids)) e
                  (owner (step_key k) (d, m, f ∙ sym (step_key-id k)))),
          );
        }

-- A DID that is created with its first key.
module _ (d : Did) (new : DidKey) (new-id : new.did_id ≡ d.id)
    (new-version : new.version ≡ d.current_key_version) (new-active : is_active new ≡ true) where
  pub created-Keyed :
      (s : Db) (logs : List AuditLog)
      → Keyed s
      → any (did_clash d) s.dids ≡ false
      → Keyed (record s { dids = d ∷ s.dids; did_keys = new ∷ s.did_keys; audit_logs = logs })
  created-Keyed s logs v clash = record {
    ids = (fresh s.dids clash, v.ids);
    keys = (
      (
        (new, inl refl, new-id, new-version, new-active),
        (
          (λ _. (ground arith, λ _. new-version)),
          In-All (Bounded d) s.did_keys (λ k i q.
              let (e, j, f) = All-In (Owned s.dids) s.did_keys k v.belongs i in
              absurd (Fresh-In (λ (d : Did). d.id) d.id s.dids e (fresh s.dids clash) j (f ∙ q))),
        ),
      ),
      In-All (KeysOf (new ∷ s.did_keys)) s.dids (λ e i.
          let ((k, j, a, b, c), all) = All-In (KeysOf s.did_keys) s.dids e v.keys i in
          (
            (k, inr j, a, b, c),
            (
              (λ q. absurd (
                  Fresh-In (λ (d : Did). d.id) d.id s.dids e (fresh s.dids clash) i
                    (sym q ∙ new-id))),
              all,
            ),
          )),
    );
    belongs = (
      (d, inl refl, sym new-id),
      In-All (Owned (d ∷ s.dids)) s.did_keys
          (λ k i. let (e, j, f) = All-In (Owned s.dids) s.did_keys k v.belongs i in (e, inr j, f)),
    );
  }
    where
      fresh : (t : List Did) → any (did_clash d) t ≡ false → Fresh (λ (d : Did). d.id) d.id t
      fresh [] h = tt
      fresh (x ∷ t) h = (ground arith, fresh t (ground arith))

-- A retired key that is revoked.
module _ (p : DidKey → Bool) (close : DidKey → DidKey)
    (close-id : (k : DidKey) → (close k).did_id ≡ k.did_id)
    (close-version : (k : DidKey) → (close k).version ≡ k.version)
    (closed : (k : DidKey) → is_active (close k) ≡ false)
    (idle : (k : DidKey) → p k ≡ true → is_active k ≡ false) where
  pub revoked-Keyed :
      (s : Db) (logs : List AuditLog)
      → Keyed s
      → Keyed (record s { did_keys = map_where p close s.did_keys; audit_logs = logs })
  revoked-Keyed s logs v = record {
    ids = v.ids;
    keys = In-All (KeysOf (map_where p close s.did_keys)) s.dids (λ d i.
        let ((k, j, a, b, c), all) = All-In (KeysOf s.did_keys) s.dids d v.keys i in
        let kept : (if p k then close k else k) ≡ k = elim (Bool-cases (p k)) [
          | inl e ↦ absurd (ground (arith, idle k e))
          | inr e ↦ rw e refl
        ] in
        (
          (
            k,
            subst (λ x. In x (map_where p close s.did_keys)) kept (In-map p close s.did_keys k j),
            a,
            b,
            c,
          ),
          In-All (Bounded d) (map_where p close s.did_keys) (λ x m.
              let (k, l, e) = map-In p close s.did_keys x m in
              subst (Bounded d) e (still d k (All-In (Bounded d) s.did_keys k all l))),
        ));
    belongs = In-All (Owned s.dids) (map_where p close s.did_keys) (λ x m.
        let (k, l, e) = map-In p close s.did_keys x m in
        subst (Owned s.dids) e (
          let (d, i, f) = All-In (Owned s.dids) s.did_keys k v.belongs l in
          (d, i, f ∙ sym (step-id k))));
  }
    where
      still : (d : Did) (k : DidKey) → Bounded d k → Bounded d (if p k then close k else k)
      still d k h = elim (Bool-cases (p k)) [
        | inr e ↦ rw e h
        | inl e ↦ rw e (λ q. (
          ground (arith, close-version k, h (sym (close-id k) ∙ q)),
          λ a. absurd (ground (arith, closed k)),
        ))
      ]

      step-id : (k : DidKey) → (if p k then close k else k).did_id ≡ k.did_id
      step-id k = elim (Bool-cases (p k)) [ inl e ↦ rw e (close-id k) | inr e ↦ rw e refl ]
