-- ===== src/Bridge.antt =====
-- services/manager-control/hermes_auth_bridge.py: the clients and the authorization codes of the
-- bridge by which a Hermes instance signs its users in. The digests, the scrypt of a client secret and
-- the parts of a URI are arguments, and so are the random code and the clocks.
pub mod Clients
pub mod Grants
pub mod Redemption
pub mod Entitled
pub mod Revocation
pub mod History
pub mod Spent
pub mod Issued
pub mod Keys
pub mod Tests
use openclaw_manager.Common.{
  ℕ, String, Bool, true, false, not, ◌&&◌, ◌||◌, Option, none, some, List, ◌==◌, nat_eq, string_eq,
  if◌then◌else◌, length, all, any, codes, leb, ltb, ends_with,
}
use openclaw_manager.Store.Rows.{Db}

-- hermes_auth_clients
pub record Client : Type 0 where
  pub id : ℕ
  pub instance_id : ℕ
  pub client_id : String
  pub client_secret_hash : String
  pub redirect_uri : String
  pub rotated_at : Option ℕ
  pub revoked_at : Option ℕ

-- hermes_auth_grants, where client_id is the id of the client's row
pub record Grant : Type 0 where
  pub code_hash : String
  pub client_id : ℕ
  pub instance_id : ℕ
  pub user_id : ℕ
  pub manager_session_id : String
  pub redirect_uri : String
  pub code_challenge : String
  pub created_at : ℕ
  pub expires_at : ℕ
  pub consumed_at : Option ℕ

-- The database, with the tables that the store has.
pub record BridgeDb : Type 0 where
  pub store : Db
  pub clients : List Client
  pub grants : List Grant
  pub next_client_id : ℕ

-- The messages of the ValueErrors, and the error of the database.
pub data BridgeError : Type 0 where
  invalid_client_metadata invalid_hermes_instance invalid_client : BridgeError
  invalid_grant_metadata invalid_grant short_secret integrity_error : BridgeError

pub data Answer {ℓ} (A : Type ℓ) : Type ℓ where
  answer : A → Answer A
  raised : BridgeError → Answer A

-- What `urllib.parse.urlsplit` reads.
pub record Url : Type 0 where
  pub scheme : String
  pub hostname : Option String
  pub username : Option String
  pub password : Option String
  pub path : String
  pub query : String
  pub fragment : String

abbrev is_given : Option String → Bool
is_given none = false
is_given (some t) = not (t == "")

-- none where the parser raises
unfoldable pub valid_redirect_uri : (String → Option Url) → String → Bool
valid_redirect_uri urlsplit value = elim (urlsplit value) [
  | none ↦ false
  | some url ↦
      url.scheme == "https"
      && is_given url.hostname
      && not (is_given url.username)
      && not (is_given url.password)
      && url.query == ""
      && url.fragment == ""
      && ends_with "/auth/callback" url.path
]

-- A letter, a digit, or one of the other code points.
abbrev is_word : List ℕ → ℕ → Bool
is_word more c =
    (leb 65 c && leb c 90)
    || (leb 97 c && leb c 122)
    || (leb 48 c && leb c 57)
    || any (λ m. m == c) more

-- `pkce_challenge`, where `s256` is the digest in base 64; none for a ValueError
unfoldable pub pkce_challenge : (String → String) → String → Option String
pkce_challenge s256 verifier =
    if leb 43 (length (codes verifier))
      && leb (length (codes verifier)) 128
      && all (is_word (codes "-._~")) (codes verifier)
    then some (s256 verifier)
    else none

-- PKCE_CHALLENGE_RE
abbrev pub is_challenge : String → Bool
is_challenge t = length (codes t) == 43 && all (is_word (codes "_-")) (codes t)

-- `hash_client_secret`, where `scrypt` stands for the hash with its salt; none for a ValueError
unfoldable pub hash_client_secret : (String → String) → String → Option String
hash_client_secret scrypt secret =
    if ltb (length (codes secret)) 32 then none else some (scrypt secret)

abbrev pub is_unrevoked : Client → Bool
is_unrevoked c = elim c.revoked_at [ none ↦ true | some t ↦ false ]

abbrev pub has_code : String → Grant → Bool
has_code code_hash g = g.code_hash == code_hash

abbrev pub has_client_id : String → Client → Bool
has_client_id client_id c = c.client_id == client_id
