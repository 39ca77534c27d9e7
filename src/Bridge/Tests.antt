-- ===== src/Bridge/Tests.antt =====
-- Alice signs in to a Hermes instance of hers.
use openclaw_manager.Common.{
  ℕ, String, Bool, none, some, List, [], ◌∷◌, ◌==◌, nat_eq, string_eq, find, ◌≡◌, refl, arith,
}
use openclaw_manager.Store.Rows.{Instance, User, Session}
use openclaw_manager.Store.Tests.{office}
use openclaw_manager.Bridge.{
  Client, BridgeDb, BridgeError, invalid_grant, answer, raised, pkce_challenge, has_client_id,
}
use openclaw_manager.Bridge.Clients.{revoke_client}
use openclaw_manager.Bridge.Grants.{grant_row, issue_grant}
use openclaw_manager.Bridge.Redemption.{
  BridgePrincipal, Candidate, candidate, principal_of, consumed, redeem,
}
use openclaw_manager.Bridge.Entitled.{IsEntitled, redeem_sound}
use openclaw_manager.Bridge.Issued.{redeem-issue_grant}
use openclaw_manager.Bridge.Spent.{redeem_once}
use openclaw_manager.Bridge.History.{here, next, revoked}
use openclaw_manager.Bridge.Revocation.{revoked_db, revoke_client_final}
use openclaw_manager.Bridge.Keys.{
  SigningKeys, Use, activates, retires, load_keys, signing_key, use_keys, use_keys-signing_key,
}

abbrev box_client : Client
box_client = record {
  id = 1;
  instance_id = 1;
  client_id = "hermes-1";
  client_secret_hash = "hashed";
  redirect_uri = "https://box/auth/callback";
  rotated_at = none;
  revoked_at = none;
}

abbrev signed_in : Session
signed_in = record {
  token_hash = "t-1";
  user_id = 1;
  provider = "campus-uis";
  session_kind = "user";
  csrf_token = "c-1";
  expires_at = 5000;
}

abbrev start : BridgeDb
start = record {
  store = record office { sessions = signed_in ∷ [] };
  clients = box_client ∷ [];
  grants = [];
  next_client_id = 2;
}

abbrev verifier : String
verifier = "abcdefghijklmnopqrstuvwxyz-abcdefghijklmnopqr"

abbrev challenge : String
challenge = "ABCDEFGHIJKLMNOPQRSTUVWXYZ-ABCDEFGHIJKLMNOP"

abbrev redirect : String
redirect = "https://box/auth/callback"

abbrev digest : String → String
digest t = challenge

abbrev knows : String → String → Bool
knows secret hash = secret == "the secret"

abbrev issued : BridgeDb
issued =
    (issue_grant (λ t. t) "code" "hermes-1" none none "t-1" redirect challenge 60 1000 1000 start).1

abbrev redeemed : BridgeDb
redeemed = consumed "code" 1010 issued

abbrev alice_here : BridgePrincipal
alice_here = record { user_id = "u-1"; instance_id = "i-1"; client_id = "hermes-1" }

redeem_sound_example :
    (r : Candidate) × IsEntitled
      (λ t. t)
      digest
      knows
      (λ p. p)
      "code"
      "hermes-1"
      "the secret"
      redirect
      verifier
      1010
      issued
      r
    × (alice_here ≡ principal_of r)
    × (redeemed ≡ consumed r.grant.code_hash 1010 issued)
unfolding redeem candidate issue_grant grant_row pkce_challenge
redeem_sound_example =
    redeem_sound (λ t. t) digest knows (λ p. p) "code" "hermes-1" "the secret" redirect verifier
      1010 issued redeemed alice_here refl

redeem_once_example :
    redeem
      (λ t. t)
      digest
      knows
      (λ p. p)
      "code"
      "hermes-1"
      "the secret"
      redirect
      verifier
      1020
      (revoke_client "hermes-1" 1015 redeemed).1
    ≡ (raised invalid_grant, (revoke_client "hermes-1" 1015 redeemed).1)
unfolding redeem candidate issue_grant grant_row pkce_challenge
redeem_once_example =
    redeem_once (λ t. none) (λ t. t) (λ t. t) digest knows "code" (λ p. p) alice_here "hermes-1"
      "the secret" redirect verifier 1010 "hermes-1" "the secret" redirect verifier 1020 issued
      redeemed (revoke_client "hermes-1" 1015 redeemed).1 refl
      (next here (revoked "hermes-1" 1015 refl))

redeem-issue_grant_example :
    (c : Client) × (i : Instance) × (s : Session) × (u : User) × (find
        (has_client_id "hermes-1")
        start.clients
      ≡ some c)
    × (find (λ (i : Instance). i.id == c.instance_id) start.store.instances ≡ some i)
    × (find (λ (s : Session). s.token_hash == "t-1") start.store.sessions ≡ some s)
    × (find (λ (u : User). u.id == s.user_id) start.store.users ≡ some u)
    × (redeem
          (λ t. t)
          digest
          knows
          (λ p. p)
          "code"
          "hermes-1"
          "the secret"
          redirect
          verifier
          1059
          issued
        ≡ (
          answer (record {
            user_id = u.public_id;
            instance_id = i.public_id;
            client_id = c.client_id;
          }),
          consumed "code" 1059 issued,
        ))
unfolding issue_grant grant_row pkce_challenge
redeem-issue_grant_example =
    redeem-issue_grant (λ t. t) digest knows (λ p. p) "code" "hermes-1" none none "t-1" redirect
      challenge 60 1000 1000 start issued "the secret" verifier 1059 (tt, tt) refl (λ c e. refl)
      refl (omega arith)

revoke_client_final_example :
    (redeem
        (λ t. t)
        digest
        knows
        (λ p. p)
        "code"
        "hermes-1"
        "the secret"
        redirect
        verifier
        1020
        (revoked_db "hermes-1" 1015 issued)
      ≡ (raised invalid_grant, revoked_db "hermes-1" 1015 issued))
    × ((e : BridgeError) × (issue_grant
            (λ t. t)
            "code"
            "hermes-1"
            none
            none
            "t-1"
            redirect
            challenge
            60
            1020
            1020
            (revoked_db "hermes-1" 1015 issued)
          ≡ (raised e, revoked_db "hermes-1" 1015 issued)))
revoke_client_final_example =
    revoke_client_final "hermes-1" 1015 issued (λ t. t) digest knows (λ p. p) "code" "the secret"
      redirect verifier "t-1" challenge none none 60 1020 1020

abbrev two_keys : List (String × ℕ)
two_keys = ("a", 1) ∷ ("b", 2) ∷ []

abbrev loaded : SigningKeys ℕ
loaded = record { keys = two_keys; active_kid = "a" }

abbrev turn : List Use
turn = retires "a" ∷ activates "b" ∷ retires "a" ∷ activates "a" ∷ []

use_keys-signing_key_example : (key : String × ℕ) × (signing_key (use_keys turn loaded) ≡ some key)
unfolding load_keys
use_keys-signing_key_example = use_keys-signing_key two_keys "a" loaded turn refl
