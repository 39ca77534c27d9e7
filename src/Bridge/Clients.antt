-- ===== src/Bridge/Clients.antt =====
-- The operations on clients, and the removal of a client by `delete_hermes_bridge_client` of
-- services/manager-control/app.py.
use openclaw_manager.Common.{
  ℕ, String, Bool, true, false, not, ◌&&◌, ◌||◌, Option, none, some, ◌==◌, nat_eq, string_eq,
  if◌then◌else◌, ◌+◌, any, insert, update_where, delete_where, rowcount,
}
use openclaw_manager.Store.Rows.{Instance, InstanceStatus}
use openclaw_manager.Store.Jobs.{instance_row}
use openclaw_manager.Control.Creation.{is_hermes}
use openclaw_manager.Bridge.{
  Client, Grant, BridgeDb, invalid_client_metadata, invalid_hermes_instance, invalid_client,
  short_secret, integrity_error, Answer, answer, raised, Url, valid_redirect_uri,
  hash_client_secret, is_unrevoked, has_client_id,
}

-- A status other than `failed`.
abbrev pub can_have_client : InstanceStatus → Bool
can_have_client InstanceStatus.failed = false
can_have_client _ = true

-- The two UNIQUE columns of a new row.
abbrev pub is_taken : ℕ → String → BridgeDb → Bool
is_taken instance_id client_id db =
    any (λ (c : Client). c.instance_id == instance_id || c.client_id == client_id) db.clients

unfoldable pub create_client :
    (String → Option Url)
    → (String → String)
    → ℕ
    → String
    → String
    → String
    → BridgeDb
    → Answer (Unit {0}) × BridgeDb
create_client urlsplit scrypt instance_id client_id secret redirect_uri db =
    if client_id == "" || not (valid_redirect_uri urlsplit redirect_uri)
    then (raised invalid_client_metadata, db)
    else if not (
        any
          (λ (i : Instance). i.id == instance_id && is_hermes i.product && can_have_client i.status)
          db.store.instances)
    then (raised invalid_hermes_instance, db)
    else elim (hash_client_secret scrypt secret) [
      | none ↦ (raised short_secret, db)
      | some hash ↦ if is_taken instance_id client_id db then (raised integrity_error, db) else (
        answer tt,
        record db {
          clients =
              insert
                (record {
                  id = db.next_client_id;
                  instance_id = instance_id;
                  client_id = client_id;
                  client_secret_hash = hash;
                  redirect_uri = redirect_uri;
                  rotated_at = none;
                  revoked_at = none;
                })
                db.clients;
          next_client_id = db.next_client_id + 1;
        },
      )
    ]

-- The rows that an UPDATE of a client writes.
abbrev pub is_current : String → Client → Bool
is_current client_id c = has_client_id client_id c && is_unrevoked c

-- An UPDATE that does not write one row is an error, after it is committed.
abbrev pub write_client : String → (Client → Client) → BridgeDb → Answer (Unit {0}) × BridgeDb
write_client client_id change db = (
  if rowcount (is_current client_id) db.clients == 1 then answer tt else raised invalid_client,
  record db { clients = update_where (is_current client_id) change db.clients },
)

unfoldable pub rotate_client_secret :
    (String → String) → String → String → ℕ → BridgeDb → Answer (Unit {0}) × BridgeDb
rotate_client_secret scrypt client_id secret now db = elim (hash_client_secret scrypt secret) [
  | none ↦ (raised short_secret, db)
  | some hash ↦
      write_client client_id (λ c. record c { client_secret_hash = hash; rotated_at = some now }) db
]

unfoldable pub revoke_client : String → ℕ → BridgeDb → Answer (Unit {0}) × BridgeDb
revoke_client client_id now db = write_client client_id (λ c. record c { revoked_at = some now }) db

-- ON DELETE CASCADE of the grants
unfoldable pub delete_client : String → BridgeDb → BridgeDb
delete_client instance_public_id db = elim (instance_row db.store instance_public_id) [
  | none ↦ db
  | some i ↦ record db {
    clients = delete_where (λ (c : Client). c.instance_id == i.id) db.clients;
    grants =
        delete_where
          (λ (g : Grant).
            any (λ (c : Client). c.instance_id == i.id && c.id == g.client_id) db.clients)
          db.grants;
  }
]
