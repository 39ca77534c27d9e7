-- ===== src/Bridge/Redemption.antt =====
-- `redeem`: a code and the secret of the client for the identity of the user.
use openclaw_manager.Common.{
  ℕ, String, Bool, true, false, not, ◌&&◌, Option, none, some, ◌==◌, nat_eq, string_eq,
  if◌then◌else◌, find, update_where, rowcount, ltb, join, where_true,
}
use openclaw_manager.Store.Rows.{Instance, User}
use openclaw_manager.Store.Ports.{is_active}
use openclaw_manager.Store.Members.{is_active_user}
use openclaw_manager.Control.Creation.{is_hermes}
use openclaw_manager.Bridge.{
  Client, Grant, BridgeDb, invalid_grant, Answer, answer, raised, pkce_challenge, is_unrevoked,
  has_code,
}

pub record BridgePrincipal : Type 0 where
  pub user_id : String
  pub instance_id : String
  pub client_id : String

pub record Candidate : Type 0 where
  pub grant : Grant
  pub client : Client
  pub instance : Instance
  pub user : User

abbrev pub is_redeemable : String → Candidate → Bool
is_redeemable client_id r =
    r.client.client_id == client_id
    && r.grant.instance_id == r.client.instance_id
    && is_hermes r.instance.product
    && is_unrevoked r.client
    && is_active r.instance.status
    && is_active_user r.user.status

-- The row of the SELECT.
unfoldable pub candidate : String → String → BridgeDb → Option Candidate
candidate code_hash client_id db = join (find (has_code code_hash) db.grants) (λ g.
    join (find (λ (c : Client). c.id == g.client_id) db.clients) (λ c.
      join (find (λ (i : Instance). i.id == g.instance_id) db.store.instances) (λ i.
        join (find (λ (u : User). u.id == g.user_id) db.store.users) (λ u.
          let r : Candidate = record { grant = g; client = c; instance = i; user = u } in
          where_true (is_redeemable client_id r) r))))

-- `not row[6]`
abbrev pub is_unconsumed : Grant → Bool
is_unconsumed g = elim g.consumed_at [ none ↦ true | some t ↦ t == 0 ]

-- `consumed_at IS NULL`
abbrev pub is_open : Grant → Bool
is_open g = elim g.consumed_at [ none ↦ true | some t ↦ false ]

abbrev pub meets_challenge : (String → String) → String → Grant → Bool
meets_challenge s256 verifier g = elim (pkce_challenge s256 verifier) [
  | none ↦ false
  | some challenge ↦ g.code_challenge == challenge
]

abbrev pub is_valid :
    (String → String) → (String → String → Bool) → String → String → String → ℕ → Candidate → Bool
is_valid s256 verify secret redirect_uri verifier now r =
    verify secret r.client.client_secret_hash
    && is_unconsumed r.grant
    && ltb now r.grant.expires_at
    && r.grant.redirect_uri == redirect_uri
    && meets_challenge s256 verifier r.grant

abbrev pub principal_of : Candidate → BridgePrincipal
principal_of r = record {
  user_id = r.user.public_id;
  instance_id = r.instance.public_id;
  client_id = r.client.client_id;
}

-- The grants that the UPDATE writes.
abbrev pub is_claimable : String → Grant → Bool
is_claimable code_hash g = has_code code_hash g && is_open g

abbrev pub consumed : String → ℕ → BridgeDb → BridgeDb
consumed code_hash now db = record db {
  grants =
      update_where (is_claimable code_hash) (λ g. record g { consumed_at = some now }) db.grants;
}

-- `verify` is `verify_client_secret`. `issue_token` is given the identity.
unfoldable pub redeem {ℓ} :
    {T : Type ℓ}
    → (String → String)
    → (String → String)
    → (String → String → Bool)
    → (BridgePrincipal → T)
    → String
    → String
    → String
    → String
    → String
    → ℕ
    → BridgeDb
    → Answer T × BridgeDb
unfolding candidate
redeem sha256 s256 verify issue_token code client_id secret redirect_uri verifier now db =
    elim (candidate (sha256 code) client_id db) [
      | none ↦ (raised invalid_grant, db)
      | some r ↦
          if not (is_valid s256 verify secret redirect_uri verifier now r)
          then (raised invalid_grant, db)
          else if not (rowcount (is_claimable r.grant.code_hash) db.grants == 1)
          then (raised invalid_grant, db)
          else (answer (issue_token (principal_of r)), consumed r.grant.code_hash now db)
    ]
