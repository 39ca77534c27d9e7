-- ===== src/Bridge/Entitled.antt =====
-- Who can redeem a code.
use openclaw_manager.Common.{
  ℕ, String, Bool, true, some, ◌==◌, nat_eq, string_eq, ◌<◌, find, rowcount, join-inv,
  where_true-inv, Bool-cases, Option-cases, ◌≡◌, refl, sym, ap, ◌∙◌, subst, inl, inr, ◌⊎◌, arith,
  eq_of_==,
}
use openclaw_manager.Store.Rows.{Instance, User}
use openclaw_manager.Store.Ports.{is_active}
use openclaw_manager.Store.Members.{is_active_user}
use openclaw_manager.Control.Creation.{is_hermes}
use openclaw_manager.Bridge.{
  Client, Grant, BridgeDb, invalid_grant, answer, raised, pkce_challenge, is_unrevoked, has_code,
}
use openclaw_manager.Bridge.Redemption.{
  BridgePrincipal, Candidate, is_redeemable, candidate, is_unconsumed, is_valid, meets_challenge,
  principal_of, is_claimable, consumed, redeem,
}

pub candidate-inv :
    (code_hash client_id : String) (db : BridgeDb) (r : Candidate)
    → candidate code_hash client_id db ≡ some r
    → (find (has_code code_hash) db.grants ≡ some r.grant)
      × (find (λ (c : Client). c.id == r.grant.client_id) db.clients ≡ some r.client)
      × (find (λ (i : Instance). i.id == r.grant.instance_id) db.store.instances ≡ some r.instance)
      × (find (λ (u : User). u.id == r.grant.user_id) db.store.users ≡ some r.user)
      × (is_redeemable client_id r ≡ true)
unfolding candidate
candidate-inv code_hash client_id db r h =
    let (g, found_g, h) = join-inv (find (has_code code_hash) db.grants) _ r h in
    let (c, found_c, h) = join-inv (find (λ (c : Client). c.id == g.client_id) db.clients) _ r h in
    let (i, found_i, h) =
      join-inv (find (λ (i : Instance). i.id == g.instance_id) db.store.instances) _ r h in
    let (u, found_u, h) = join-inv (find (λ (u : User). u.id == g.user_id) db.store.users) _ r h in
    let (holds, same) = where_true-inv _ _ r h in
    subst
      (λ (r : Candidate).
        (find (has_code code_hash) db.grants ≡ some r.grant)
        × (find (λ (c : Client). c.id == r.grant.client_id) db.clients ≡ some r.client)
        × (find (λ (i : Instance). i.id == r.grant.instance_id) db.store.instances
            ≡ some r.instance)
        × (find (λ (u : User). u.id == r.grant.user_id) db.store.users ≡ some r.user)
        × (is_redeemable client_id r ≡ true))
      same (found_g, found_c, found_i, found_u, holds)

module _ {ℓ} {T : Type ℓ} (sha256 s256 : String → String) (verify : String → String → Bool)
    (issue_token : BridgePrincipal → T) (code client_id secret redirect_uri verifier : String)
    (now : ℕ) where
  pub redeem-cases :
      (db : BridgeDb)
      → (redeem sha256 s256 verify issue_token code client_id secret redirect_uri verifier now db
          ≡ (raised invalid_grant, db))
        ⊎ ((r : Candidate) × (candidate (sha256 code) client_id db ≡ some r)
            × (is_valid s256 verify secret redirect_uri verifier now r ≡ true)
            × ((rowcount (is_claimable r.grant.code_hash) db.grants == 1) ≡ true)
            × (redeem sha256 s256 verify issue_token code client_id secret redirect_uri verifier now
                  db
                ≡ (answer (issue_token (principal_of r)), consumed r.grant.code_hash now db)))
  unfolding redeem
  redeem-cases db = elim (Option-cases (candidate (sha256 code) client_id db)) [
    | inl e ↦ inl (rw (e, redeem) refl)
    | inr (r, e) ↦ elim (Bool-cases (is_valid s256 verify secret redirect_uri verifier now r)) [
      | inr v ↦ inl (rw (e, redeem) (rw v refl))
      | inl v ↦ elim (Bool-cases (rowcount (is_claimable r.grant.code_hash) db.grants == 1)) [
        | inr n ↦ inl (rw (e, redeem) (rw v (rw n refl)))
        | inl n ↦ inr (r, e, v, n, rw (e, redeem) (rw v (rw n refl)))
      ]
    ]
  ]

  pub redeem-candidate :
      (db : BridgeDb) (r : Candidate)
      → candidate (sha256 code) client_id db ≡ some r
      → is_valid s256 verify secret redirect_uri verifier now r ≡ true
      → (rowcount (is_claimable r.grant.code_hash) db.grants == 1) ≡ true
      → redeem sha256 s256 verify issue_token code client_id secret redirect_uri verifier now db
        ≡ (answer (issue_token (principal_of r)), consumed r.grant.code_hash now db)
  unfolding redeem
  redeem-candidate db r e v n = rw (e, redeem) (rw v (rw n refl))

  redeem-inv :
      (db db' : BridgeDb) (token : T)
      → redeem sha256 s256 verify issue_token code client_id secret redirect_uri verifier now db
        ≡ (answer token, db')
      → (r : Candidate) × (candidate (sha256 code) client_id db ≡ some r)
        × (is_valid s256 verify secret redirect_uri verifier now r ≡ true)
        × (token ≡ issue_token (principal_of r))
        × (db' ≡ consumed r.grant.code_hash now db)
  redeem-inv db db' token h = elim (redeem-cases db) [
    | inl e ↦ absurd (cc (e, h))
    | inr (r, e, v, n, k) ↦ (r, e, v, cc (k, h), cc (k, h))
  ]

  -- What a redemption needs of the grant, of the client and of the people.
  abbrev pub IsEntitled : BridgeDb → Candidate → Type 0
  IsEntitled db r =
      ((find (has_code (sha256 code)) db.grants ≡ some r.grant)
        × (find (λ (c : Client). c.id == r.grant.client_id) db.clients ≡ some r.client)
        × (find (λ (i : Instance). i.id == r.grant.instance_id) db.store.instances
            ≡ some r.instance)
        × (find (λ (u : User). u.id == r.grant.user_id) db.store.users ≡ some r.user))
      × ((r.client.client_id ≡ client_id)
          × (r.grant.instance_id ≡ r.client.instance_id)
          × (is_hermes r.instance.product ≡ true)
          × (is_unrevoked r.client ≡ true)
          × (is_active r.instance.status ≡ true)
          × (is_active_user r.user.status ≡ true))
      × ((verify secret r.client.client_secret_hash ≡ true)
          × (is_unconsumed r.grant ≡ true)
          × (now < r.grant.expires_at)
          × (r.grant.redirect_uri ≡ redirect_uri)
          × (pkce_challenge s256 verifier ≡ some r.grant.code_challenge))

  meets_challenge_sound :
      (g : Grant)
      → meets_challenge s256 verifier g ≡ true
      → pkce_challenge s256 verifier ≡ some g.code_challenge
  meets_challenge_sound g h = elim (Option-cases (pkce_challenge s256 verifier)) [
    | inl e ↦ absurd (cc (rw (e, meets_challenge) at h))
    | inr (t, e) ↦ e ∙ ap some (sym (eq_of_== g.code_challenge t (rw (e, meets_challenge) at h)))
  ]

  -- A redemption that is answered was entitled: the code is the one of a grant of the client, which
  -- is not revoked and whose secret was shown, for an active Hermes instance, which is the client's
  -- own, and an active user, and the grant was neither consumed nor expired, was made for the same redirect URI, and has the challenge
  -- of the verifier. The token is issued for the user, the instance and the client of the grant, and
  -- all that the database loses is that the grant is consumed.
  pub redeem_sound :
      (db db' : BridgeDb) (token : T)
      → redeem sha256 s256 verify issue_token code client_id secret redirect_uri verifier now db
        ≡ (answer token, db')
      → (r : Candidate) × IsEntitled db r
        × (token ≡ issue_token (principal_of r))
        × (db' ≡ consumed r.grant.code_hash now db)
  redeem_sound db db' token h =
      let (r, row, valid, issued, after) = redeem-inv db db' token h in
      let (found_g, found_c, found_i, found_u, fits) =
        candidate-inv (sha256 code) client_id db r row in
      (
        r,
        (
          (found_g, found_c, found_i, found_u),
          (
            eq_of_== r.client.client_id client_id (ground (arith, fits)),
            ground (arith, fits),
            ground (arith, fits),
            ground (arith, fits),
            ground (arith, fits),
            ground (arith, fits),
          ),
          (
            ground (arith, valid),
            ground (arith, valid),
            ground (arith, valid),
            eq_of_== r.grant.redirect_uri redirect_uri (ground (arith, valid)),
            meets_challenge_sound r.grant (ground (arith, valid)),
          ),
        ),
        issued,
        after,
      )
