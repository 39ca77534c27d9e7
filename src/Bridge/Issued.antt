-- ===== src/Bridge/Issued.antt =====
-- From the issue of a code to its redemption.
use openclaw_manager.Common.{
  ℕ, String, Bool, true, false, not, ◌||◌, Option, some, List, [], ◌∷◌, ◌==◌, nat_eq, string_eq,
  ◌+◌, ◌<◌, any, All, find, find-All, find_sound, insert, ==_refl, ==_false, ne_of_==, rowcount,
  join-inv, where_true-inv, Bool-cases, Option-cases, ◌≡◌, refl, sym, ap, ◌∙◌, subst, ◌⊎◌, inl, inr,
  arith, eq_of_==,
}
use openclaw_manager.Store.Rows.{Time, Instance, User, Session}
use openclaw_manager.Bridge.{
  Client, Grant, BridgeDb, BridgeError, invalid_client, invalid_grant_metadata, integrity_error,
  answer, raised, is_challenge, pkce_challenge, has_code, has_client_id,
}
use openclaw_manager.Bridge.Grants.{grant_row, admits, agrees, new_grant, issue_grant}
use openclaw_manager.Bridge.Redemption.{
  BridgePrincipal, Candidate, candidate, is_valid, is_claimable, is_open, is_redeemable,
  meets_challenge, consumed, redeem,
}
use openclaw_manager.Bridge.Entitled.{redeem-candidate}

pub grant_row-inv :
    (session_id client_id : String) (clock : Time) (db : BridgeDb) (c : Client) (u : User)
    → grant_row session_id client_id clock db ≡ some (c, u)
    → (find (has_client_id client_id) db.clients ≡ some c)
      × (i : Instance) × (s : Session) × (find
            (λ (i : Instance). i.id == c.instance_id)
            db.store.instances
          ≡ some i)
      × (find (λ (s : Session). s.token_hash == session_id) db.store.sessions ≡ some s)
      × (find (λ (u : User). u.id == s.user_id) db.store.users ≡ some u)
      × (admits db.store clock c i s u ≡ true)
unfolding grant_row
grant_row-inv session_id client_id clock db c u h =
    let (c', found_c, h) = join-inv (find (has_client_id client_id) db.clients) _ (c, u) h in
    let (i, found_i, h) =
      join-inv (find (λ (i : Instance). i.id == c'.instance_id) db.store.instances) _ (c, u) h in
    let (s, found_s, h) =
      join-inv (find (λ (s : Session). s.token_hash == session_id) db.store.sessions) _ (c, u) h in
    let (u', found_u, h) =
      join-inv (find (λ (u : User). u.id == s.user_id) db.store.users) _ (c, u) h in
    let (holds, same) = where_true-inv _ _ (c, u) h in
    let same_c : c' ≡ c = ap (λ (x : Client × User). x.0) same in
    let same_u : u' ≡ u = ap (λ (x : Client × User). x.1) same in
    (
      found_c ∙ ap some same_c,
      i,
      s,
      subst
          (λ (c : Client).
            find (λ (i : Instance). i.id == c.instance_id) db.store.instances ≡ some i)
          same_c found_i,
      found_s,
      found_u ∙ ap some same_u,
      subst (λ (x : Client × User). admits db.store clock x.0 i s x.1 ≡ true) same holds,
    )

module _ (sha256 : String → String) (code client_id : String) (instance_id user_id : Option ℕ)
    (session_id redirect_uri code_challenge : String) (ttl now : ℕ) (clock : Time)
    (db : BridgeDb) where
  abbrev pub with_grant : Client → User → BridgeDb
  with_grant c u = record db {
    grants =
        insert (new_grant (sha256 code) c u session_id redirect_uri code_challenge ttl now)
          db.grants;
  }

  pub issue_grant-cases :
      ((e : BridgeError) × (issue_grant sha256 code client_id instance_id user_id session_id
            redirect_uri code_challenge ttl now clock db
          ≡ (raised e, db)))
      ⊎ ((c : Client) × (u : User) × (grant_row session_id client_id clock db ≡ some (c, u))
          × ((c.redirect_uri == redirect_uri) ≡ true)
          × (any (has_code (sha256 code)) db.grants ≡ false)
          × (issue_grant sha256 code client_id instance_id user_id session_id redirect_uri
                code_challenge ttl now clock db
              ≡ (answer code, with_grant c u)))
  unfolding issue_grant
  issue_grant-cases = elim (Bool-cases (not (is_challenge code_challenge) || ttl == 0)) [
    | inl e ↦ inl (invalid_grant_metadata, rw (e, issue_grant) refl)
    | inr e ↦ elim (Option-cases (grant_row session_id client_id clock db)) [
      | inl n ↦ inl (invalid_client, rw (e, issue_grant) (rw n refl))
      | inr ((c, u), n) ↦
          elim (Bool-cases (
            not (c.redirect_uri == redirect_uri)
            || not (agrees instance_id c.instance_id)
            || not (agrees user_id u.id))) [
              | inl k ↦ inl (invalid_client, rw (e, issue_grant) (rw n (rw k refl)))
              | inr k ↦ elim (Bool-cases (any (has_code (sha256 code)) db.grants)) [
                | inl a ↦ inl (integrity_error, rw (e, issue_grant) (rw n (rw k (rw a refl))))
                | inr a ↦
                    inr
                      (c, u, n, ground (arith, k), a, rw (e, issue_grant) (rw n (rw k (rw a refl))))
              ]
            ]
    ]
  ]

-- The primary key of the clients.
abbrev pub IsKeyed : List Client → Type 0
IsKeyed [] = Unit
IsKeyed (c ∷ cs) = All (λ (x : Client). (x.id == c.id) ≡ false) cs × IsKeyed cs

find-keyed :
    (p : Client → Bool) (cs : List Client) (c : Client)
    → IsKeyed cs
    → find p cs ≡ some c
    → find (λ x. x.id == c.id) cs ≡ some c
find-keyed p [] c h found = absurd (cc found)
find-keyed p (x ∷ cs) c (apart, h) found = elim (Bool-cases (p x)) [
  | inl e ↦
      let same : x ≡ c = ground (arith, rw e at found) in
      rw (ap (λ (y : Client). y.id == c.id) same ∙ ==_refl c.id) (ap some same)
  | inr e ↦
      let later = rw e at found in
      let other : (c.id == x.id) ≡ false =
        find-All (λ (y : Client). (y.id == x.id) ≡ false) p cs c apart later in
      rw (==_false x.id c.id (λ k. ne_of_== c.id x.id other (sym k))) (find-keyed p cs c h later)
]

-- The grants after a new one.
abbrev with_new : BridgeDb → Grant → BridgeDb
with_new db g = record db { grants = insert g db.grants }

module _ (code_hash : String) (g : Grant) (own : has_code code_hash g ≡ true) where
  find-new :
      (gs : List Grant)
      → any (has_code code_hash) gs ≡ false
      → find (has_code code_hash) (insert g gs) ≡ some g
  find-new [] h = rw own refl
  find-new (x ∷ gs) h = ground (arith, h, find-new gs)

  one_claimable :
      is_open g ≡ true
      → (gs : List Grant) → any (has_code code_hash) gs ≡ false
      → rowcount (is_claimable code_hash) (insert g gs) ≡ 1
  one_claimable fresh [] h = rw own (rw fresh refl)
  one_claimable fresh (x ∷ gs) h = ground (arith, h, one_claimable fresh gs)

  candidate-new :
      (client_id : String) (db : BridgeDb) (c : Client) (i : Instance) (u : User)
      → any (has_code code_hash) db.grants ≡ false
      → find (λ (c : Client). c.id == g.client_id) db.clients ≡ some c
      → find (λ (i : Instance). i.id == g.instance_id) db.store.instances ≡ some i
      → find (λ (u : User). u.id == g.user_id) db.store.users ≡ some u
      → is_redeemable client_id (record { grant = g; client = c; instance = i; user = u }) ≡ true
      → candidate code_hash client_id (with_new db g)
        ≡ some (record { grant = g; client = c; instance = i; user = u })
  unfolding candidate
  candidate-new client_id db c i u fresh found_c found_i found_u fits =
      rw (find-new db.grants fresh, candidate) (rw found_c (rw found_i (rw found_u (rw fits refl))))

module _ {ℓ} {T : Type ℓ} (sha256 s256 : String → String) (verify : String → String → Bool)
    (issue_token : BridgePrincipal → T) (code client_id : String) (instance_id user_id : Option ℕ)
    (session_id redirect_uri code_challenge : String) (ttl now : ℕ) (clock : Time)
    (db db' : BridgeDb) where
  -- A code that is issued can be redeemed: whoever shows the secret of the client and the verifier of
  -- the challenge, with the same redirect URI and before the end of the lifetime, is answered with a
  -- token for the user of the session and for the instance of the client.
  pub redeem-issue_grant :
      (secret verifier : String) (later : ℕ)
      → IsKeyed db.clients
      → issue_grant sha256 code client_id instance_id user_id session_id redirect_uri code_challenge
          ttl now clock db
        ≡ (answer code, db')
      → ((c : Client)
          → find (has_client_id client_id) db.clients ≡ some c
          → verify secret c.client_secret_hash ≡ true)
      → pkce_challenge s256 verifier ≡ some code_challenge
      → later < now + ttl
      → (c : Client) × (i : Instance) × (s : Session) × (u : User) × (find
            (has_client_id client_id)
            db.clients
          ≡ some c)
        × (find (λ (i : Instance). i.id == c.instance_id) db.store.instances ≡ some i)
        × (find (λ (s : Session). s.token_hash == session_id) db.store.sessions ≡ some s)
        × (find (λ (u : User). u.id == s.user_id) db.store.users ≡ some u)
        × (redeem sha256 s256 verify issue_token code client_id secret redirect_uri verifier later
              db'
            ≡ (
              answer (
                  issue_token (record {
                    user_id = u.public_id;
                    instance_id = i.public_id;
                    client_id = c.client_id;
                  })),
              consumed (sha256 code) later db',
            ))
  redeem-issue_grant secret verifier later keyed h known challenge early =
      elim (issue_grant-cases sha256 code client_id instance_id user_id session_id redirect_uri
        code_challenge ttl now clock db) [
          | inl (e, k) ↦ absurd (cc (h, k))
          | inr (c, u, row, redirect, fresh, k) ↦
              let (found_c, i, s, found_i, found_s, found_u, admitted) =
                grant_row-inv session_id client_id clock db c u row in
              let g = new_grant (sha256 code) c u session_id redirect_uri code_challenge ttl now in
              let r : Candidate = record { grant = g; client = c; instance = i; user = u } in
              let after : db' ≡ with_new db g = cc (h, k) in
              let own = find_sound (has_client_id client_id) db.clients c found_c in
              let fits : is_redeemable client_id r ≡ true =
                ground (arith, own, admitted, ==_refl c.instance_id) in
              let id =
                eq_of_== u.id s.user_id
                  (find_sound (λ (x : User). x.id == s.user_id) db.store.users u found_u) in
              let user : find (λ (x : User). x.id == u.id) db.store.users ≡ some u =
                subst (λ (n : ℕ). find (λ (x : User). x.id == n) db.store.users ≡ some u) (sym id)
                  found_u in
              let valid : is_valid s256 verify secret redirect_uri verifier later r ≡ true =
                rw (known c found_c) (
                  rw (challenge, meets_challenge)
                    (ground (arith, early, ==_refl redirect_uri, ==_refl code_challenge))) in
              (
                c,
                i,
                s,
                u,
                found_c,
                found_i,
                found_s,
                found_u,
                rw after (
                    redeem-candidate sha256 s256 verify issue_token code client_id secret
                      redirect_uri verifier later (with_new db g) r
                      (candidate-new (sha256 code) g (==_refl (sha256 code)) client_id db c i u
                        fresh (find-keyed (has_client_id client_id) db.clients c keyed found_c)
                        found_i user fits)
                      valid
                      (rw
                        (one_claimable (sha256 code) g (==_refl (sha256 code)) refl db.grants fresh)
                        refl)),
              )
        ]
