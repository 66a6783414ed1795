-- ===== src/Credentials/History/Change.antt =====
-- A change of status keeps the history consistent.
use ssi_academic_credential.Common.{
  ℕ, none, some, true, ◌∷◌, [], List, ◌≡◌, ◌≢◌, refl, arith, count, map_where, All, Fresh, Distinct,
  Bool-cases, inl, inr, ap, sym, ◌∙◌, Distinct-map_where, Fresh-of_map_where, count-pos, Fresh-In,
}
use ssi_academic_credential.Database.{Db, Credential, CredentialStatusHistory}
use ssi_academic_credential.Credentials.Status.{
  StatusChange, change_where, set_status, history_entry,
}
use ssi_academic_credential.Credentials.Status.Laws.{changed}
use ssi_academic_credential.Credentials.History.{
  last_status, legal, Consistent, credential_status_eq_sound, agrees-In, agrees_other,
}

module _ (now : ℕ) (i : StatusChange) where
  -- What the test of the update says of a row.
  pub fits :
      (c : Credential)
      → change_where now i c ≡ true
      → (c.id ≡ i.credential_id) × (c.status ≡ i.previous_status)
  fits c h = ground (arith, credential_status_eq_sound c.status i.previous_status)

  -- Where no row has the identifier, the update changes nothing.
  pub unchanged :
      (t : List Credential)
      → Fresh (λ (c : Credential). c.id) i.credential_id t
      → map_where (change_where now i) (set_status i.new_status) t ≡ t
  unchanged [] f = refl
  unchanged (c ∷ t) f = ground (arith, unchanged t f.1)

  agrees_changed :
      (hs : List CredentialStatusHistory) (t : List Credential)
      → Distinct (λ (c : Credential). c.id) t
      → count (change_where now i) t ≡ 1
      → All (λ (c : Credential). last_status c.id hs ≡ some c.status) t
      → All
          (λ (c : Credential). last_status c.id (history_entry i ∷ hs) ≡ some c.status)
          (map_where (change_where now i) (set_status i.new_status) t)
  unfolding last_status
  agrees_changed hs [] d n h = tt
  agrees_changed hs (c ∷ t) d n h = elim (Bool-cases (change_where now i c)) [
    | inl e ↦
        let same : c.id ≡ i.credential_id = (fits c e).0 in
        let rest : Fresh (λ (c : Credential). c.id) i.credential_id t = rw (← same) d.0 in
        (ground arith, rw (unchanged t rest) (agrees_other (history_entry i) hs t rest h.1))
    | inr e ↦
        let (x, m, p) = count-pos (change_where now i) t (ground arith) in
        let apart : c.id ≢ i.credential_id =
          λ q. Fresh-In (λ (c : Credential). c.id) c.id t x d.0 m ((fits x p).0 ∙ sym q) in
        (ground arith, agrees_changed hs t d.1 (ground arith) h.1)
  ]

  known_changed :
      (hs : List CredentialStatusHistory) (t : List Credential) (k : ℕ)
      → count (change_where now i) t ≡ 1
      → ((k : ℕ) → Fresh (λ (c : Credential). c.id) k t → last_status k hs ≡ none)
      → Fresh
          (λ (c : Credential). c.id)
          k
          (map_where (change_where now i) (set_status i.new_status) t)
      → last_status k (history_entry i ∷ hs) ≡ none
  unfolding last_status
  known_changed hs t k n known f =
      let old : Fresh (λ (c : Credential). c.id) k t =
        Fresh-of_map_where (λ (c : Credential). c.id) _ (set_status i.new_status) (λ c. refl) k t
          f in
      let (x, m, p) = count-pos (change_where now i) t (omega arith) in
      let apart : i.credential_id ≢ k =
        λ q. Fresh-In (λ (c : Credential). c.id) k t x old m ((fits x p).0 ∙ q) in
      ground (arith, known k old)

  -- A change from a legal status, made to exactly one row, keeps the database consistent.
  pub changed-Consistent :
      (s : Db)
      → legal (some i.previous_status) i.new_status ≡ true
      → count (change_where now i) s.credentials ≡ 1
      → Consistent s
      → Consistent (changed now i s)
  changed-Consistent s l n v =
      let (x, m, p) = count-pos (change_where now i) s.credentials (omega arith) in
      record {
        keys = Distinct-map_where (λ (c : Credential). c.id) _ _ (λ c. refl) s.credentials v.keys;
        linked = (
          rw (← (fits x p).0)
              (agrees-In s.status_history s.credentials x v.agrees m ∙ ap some (fits x p).1),
          v.linked,
        );
        lawful = (l, v.lawful);
        agrees = agrees_changed s.status_history s.credentials v.keys n v.agrees;
        known = λ k. known_changed s.status_history s.credentials k n v.known;
      }
