-- ===== src/Bridge/History.antt =====
-- What can happen to the database of the bridge.
use openclaw_manager.Common.{
  ℕ, String, Bool, false, Option, ◌==◌, nat_eq, string_eq, delete_where, ◌≡◌,
}
use openclaw_manager.Store.Rows.{Time, Db}
use openclaw_manager.Bridge.{Client, Grant, BridgeDb, Url}
use openclaw_manager.Bridge.Clients.{
  create_client, rotate_client_secret, revoke_client, delete_client,
}
use openclaw_manager.Bridge.Grants.{issue_grant}
use openclaw_manager.Bridge.Redemption.{redeem}

module _ (urlsplit : String → Option Url) (scrypt sha256 s256 : String → String)
    (verify : String → String → Bool) where
  -- What happens to the database after a code has been drawn: the operations of the bridge, where no
  -- later code has the same digest, and changes of the other tables, with the rows that they take along.
  pub data Step (code_hash : String) (s : BridgeDb) : BridgeDb → Type 0 where
    created :
        {t : BridgeDb} (instance_id : ℕ) (client_id secret redirect_uri : String)
        → t ≡ (create_client urlsplit scrypt instance_id client_id secret redirect_uri s).1
        → Step code_hash s t
    rotated :
        {t : BridgeDb} (client_id secret : String) (now : ℕ)
        → t ≡ (rotate_client_secret scrypt client_id secret now s).1
        → Step code_hash s t
    revoked :
        {t : BridgeDb} (client_id : String) (now : ℕ)
        → t ≡ (revoke_client client_id now s).1
        → Step code_hash s t
    deleted :
        {t : BridgeDb} (instance_public_id : String)
        → t ≡ delete_client instance_public_id s
        → Step code_hash s t
    issued :
        {t : BridgeDb} (code client_id : String) (instance_id user_id : Option ℕ)
        (session_id redirect_uri code_challenge : String) (ttl now : ℕ) (clock : Time)
        → (sha256 code == code_hash) ≡ false
        → t
          ≡ (issue_grant sha256 code client_id instance_id user_id session_id redirect_uri
              code_challenge ttl now clock s).1
        → Step code_hash s t
    redeemed :
        {t : BridgeDb} (code client_id secret redirect_uri verifier : String) (now : ℕ)
        → t
          ≡ (redeem sha256 s256 verify (λ p. p) code client_id secret redirect_uri verifier now s).1
        → Step code_hash s t
    changed :
        {t : BridgeDb} (store : Db) (gone_client : Client → Bool) (gone : Grant → Bool)
        → t ≡ record s {
          store = store;
          clients = delete_where gone_client s.clients;
          grants = delete_where gone s.grants;
        }
        → Step code_hash s t

  pub data Reach (code_hash : String) (s : BridgeDb) : BridgeDb → Type 0 where
    here : Reach code_hash s s
    next : {t u : BridgeDb} → Reach code_hash s t → Step code_hash t u → Reach code_hash s u
