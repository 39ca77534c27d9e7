-- ===== src/Bridge/Revocation.antt =====
-- A client that has been revoked.
use openclaw_manager.Common.{
  ℕ, String, Bool, false, Option, some, ◌==◌, nat_eq, string_eq, All, when, find-All, find_sound,
  ◌≡◌, inl, inr, arith,
}
use openclaw_manager.Store.Rows.{Time}
use openclaw_manager.Bridge.{Client, BridgeDb, BridgeError, invalid_grant, raised, has_client_id}
use openclaw_manager.Bridge.Clients.{is_current, revoke_client}
use openclaw_manager.Bridge.Grants.{issue_grant}
use openclaw_manager.Bridge.Redemption.{BridgePrincipal, redeem}
use openclaw_manager.Bridge.Entitled.{redeem-cases, candidate-inv}
use openclaw_manager.Bridge.Issued.{issue_grant-cases, grant_row-inv}
use openclaw_manager.Bridge.Spent.{map-All}

module _ (client_id : String) (revoked_at : ℕ) (db : BridgeDb) where
  abbrev pub revoked_db : BridgeDb
  revoked_db = (revoke_client client_id revoked_at db).1

  revoked-none : All (λ c. is_current client_id c ≡ false) revoked_db.clients
  unfolding revoke_client
  revoked-none =
      map-All (λ c. is_current client_id c ≡ false)
        (when (is_current client_id) (λ c. record c { revoked_at = some revoked_at }))
        (λ c. ground arith) db.clients

  -- After a revocation the client can do nothing: no redemption of a code is answered for it, by
  -- whatever secret, and no code is issued for it, and the attempts change nothing.
  pub revoke_client_final {ℓ} :
      {T : Type ℓ} (sha256 s256 : String → String) (verify : String → String → Bool)
      (issue_token : BridgePrincipal → T)
      (code secret redirect_uri verifier session_id code_challenge : String)
      (instance_id user_id : Option ℕ) (ttl now : ℕ) (clock : Time)
      → (redeem sha256 s256 verify issue_token code client_id secret redirect_uri verifier now
            revoked_db
          ≡ (raised invalid_grant, revoked_db))
        × ((e : BridgeError) × (issue_grant sha256 code client_id instance_id user_id session_id
                redirect_uri code_challenge ttl now clock revoked_db
              ≡ (raised e, revoked_db)))
  revoke_client_final sha256 s256 verify issue_token code secret redirect_uri verifier session_id
        code_challenge instance_id user_id ttl now clock =
      (
        elim (redeem-cases sha256 s256 verify issue_token code client_id secret redirect_uri
            verifier now revoked_db) [
              | inl e ↦ e
              | inr (r, row, _, _, _) ↦
                  let (_, found, _, _, fits) =
                    candidate-inv (sha256 code) client_id revoked_db r row in
                  let gone =
                    find-All (λ c. is_current client_id c ≡ false)
                      (λ (c : Client). c.id == r.grant.client_id) revoked_db.clients r.client
                      revoked-none found in
                  absurd (ground (arith, gone, fits))
            ],
        elim (issue_grant-cases sha256 code client_id instance_id user_id session_id redirect_uri
            code_challenge ttl now clock revoked_db) [
              | inl e ↦ e
              | inr (c, u, row, _, _, _) ↦
                  let (found, _, _, _, _, _, admitted) =
                    grant_row-inv session_id client_id clock revoked_db c u row in
                  let gone =
                    find-All (λ c. is_current client_id c ≡ false) (has_client_id client_id)
                      revoked_db.clients c revoked-none found in
                  let there = find_sound (has_client_id client_id) revoked_db.clients c found in
                  absurd (ground (arith, gone, there, admitted))
            ],
      )
