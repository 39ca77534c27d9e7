-- ===== src/Bridge/Spent.antt =====
-- A code that has been redeemed.
use openclaw_manager.Common.{
  ℕ, String, Bool, false, ◌&&◌, Option, some, List, [], ◌∷◌, ◌==◌, nat_eq, string_eq, All, All-snoc,
  All-map, any, map, find_sound, when, delete_where, rowcount, Bool-cases, Option-cases, ◌≡◌, refl,
  sym, ap, ◌∙◌, subst, inl, inr, arith, eq_of_==,
}
use openclaw_manager.Store.Rows.{Time}
use openclaw_manager.Store.Jobs.{instance_row}
use openclaw_manager.Bridge.{
  Client, Grant, BridgeDb, invalid_grant, Answer, answer, raised, Url, has_code,
}
use openclaw_manager.Bridge.Clients.{
  create_client, rotate_client_secret, revoke_client, delete_client,
}
use openclaw_manager.Bridge.Grants.{issue_grant, new_grant}
use openclaw_manager.Bridge.Redemption.{BridgePrincipal, is_claimable, consumed, redeem}
use openclaw_manager.Bridge.Entitled.{redeem-cases, redeem_sound, candidate-inv}
use openclaw_manager.Bridge.Issued.{issue_grant-cases}
use openclaw_manager.Bridge.History.{
  Step, created, rotated, revoked, deleted, issued, redeemed, changed, Reach, here, next,
}

-- No grant under the digest is open.
abbrev pub IsSpent : String → BridgeDb → Type 0
IsSpent code_hash db = All (λ g. is_claimable code_hash g ≡ false) db.grants

delete_where-keeps {ℓ κ} :
    {A : Type ℓ} (P : A → Type κ) (gone : A → Bool) (xs : List A)
    → All P xs
    → All P (delete_where gone xs)
delete_where-keeps P gone [] h = tt
delete_where-keeps P gone (x ∷ xs) (p, ps) = elim (Bool-cases (gone x)) [
  | inl e ↦ rw e (delete_where-keeps P gone xs ps)
  | inr e ↦ rw e (p, delete_where-keeps P gone xs ps)
]

pub map-All {ℓ κ} :
    {A : Type ℓ} (P : A → Type κ) (f : A → A)
    → ((x : A) → P (f x))
    → (xs : List A) → All P (map f xs)
map-All P f h [] = tt
map-All P f h (x ∷ xs) = (h x, map-All P f h xs)

no_rows {ℓ} :
    {A : Type ℓ} (q : A → Bool) (xs : List A) → All (λ x. q x ≡ false) xs → rowcount q xs ≡ 0
no_rows q [] h = refl
no_rows q (x ∷ xs) (e, h) = rw e (no_rows q xs h)

consumed-IsSpent :
    (code_hash : String) (now : ℕ) (db : BridgeDb) → IsSpent code_hash (consumed code_hash now db)
consumed-IsSpent code_hash now db =
    map-All (λ g. is_claimable code_hash g ≡ false)
      (when (is_claimable code_hash) (λ g. record g { consumed_at = some now })) (λ g. ground arith)
      db.grants

module _ (urlsplit : String → Option Url) (scrypt sha256 s256 : String → String)
    (verify : String → String → Bool) where
  create_client-grants :
      (instance_id : ℕ) (client_id secret redirect_uri : String) (db : BridgeDb)
      → (create_client urlsplit scrypt instance_id client_id secret redirect_uri db).1.grants
        ≡ db.grants
  unfolding create_client
  create_client-grants instance_id client_id secret redirect_uri db = ground arith

  rotate_client_secret-grants :
      (client_id secret : String) (now : ℕ) (db : BridgeDb)
      → (rotate_client_secret scrypt client_id secret now db).1.grants ≡ db.grants
  unfolding rotate_client_secret
  rotate_client_secret-grants client_id secret now db = ground arith

  revoke_client-grants :
      (client_id : String) (now : ℕ) (db : BridgeDb)
      → (revoke_client client_id now db).1.grants ≡ db.grants
  unfolding revoke_client
  revoke_client-grants client_id now db = refl

  module _ (code_hash : String) where
    abbrev IsClosed : List Grant → Type 0
    IsClosed grants = All (λ g. is_claimable code_hash g ≡ false) grants

    delete_client-IsSpent :
        (instance_public_id : String) (db : BridgeDb)
        → IsSpent code_hash db
        → IsSpent code_hash (delete_client instance_public_id db)
    unfolding delete_client
    delete_client-IsSpent instance_public_id db h =
        elim (Option-cases (instance_row db.store instance_public_id)) [
          | inl e ↦ rw (e, delete_client) h
          | inr (i, e) ↦
              rw (e, delete_client)
                (delete_where-keeps (λ g. is_claimable code_hash g ≡ false)
                  (λ (g : Grant).
                    any (λ (c : Client). c.instance_id == i.id && c.id == g.client_id) db.clients)
                  db.grants h)
        ]

    issue_grant-IsSpent :
        (code client_id : String) (instance_id user_id : Option ℕ)
        (session_id redirect_uri code_challenge : String) (ttl now : ℕ) (clock : Time)
        (db : BridgeDb)
        → (sha256 code == code_hash) ≡ false
        → IsSpent code_hash db
        → IsSpent code_hash
            (issue_grant sha256 code client_id instance_id user_id session_id redirect_uri
              code_challenge ttl now clock db).1
    issue_grant-IsSpent code client_id instance_id user_id session_id redirect_uri code_challenge
          ttl now clock db other h =
        elim (issue_grant-cases sha256 code client_id instance_id user_id session_id redirect_uri
          code_challenge ttl now clock db) [
            | inl e ↦ subst (λ (x : Answer String × BridgeDb). IsSpent code_hash x.1) (sym e.1) h
            | inr (c, u, _, _, _, e) ↦
                subst (λ (x : Answer String × BridgeDb). IsSpent code_hash x.1) (sym e)
                  (All-snoc (λ g. is_claimable code_hash g ≡ false) db.grants
                    (new_grant (sha256 code) c u session_id redirect_uri code_challenge ttl now) h
                    (ground (arith, other)))
          ]

    consume-keeps :
        (spent : String) (now : ℕ) (g : Grant)
        → is_claimable code_hash g ≡ false
        → is_claimable code_hash
            (when (is_claimable spent) (λ g. record g { consumed_at = some now }) g)
          ≡ false
    consume-keeps spent now g h = ground (arith, h)

    redeem-IsSpent :
        (code client_id secret redirect_uri verifier : String) (now : ℕ) (db : BridgeDb)
        → IsSpent code_hash db
        → IsSpent code_hash
            (redeem sha256 s256 verify
              (λ p. p)
              code
              client_id
              secret
              redirect_uri
              verifier
              now
              db).1
    redeem-IsSpent code client_id secret redirect_uri verifier now db h =
        elim (redeem-cases sha256 s256 verify (λ p. p) code client_id secret redirect_uri verifier
          now db) [
            | inl e ↦
                subst (λ (x : Answer BridgePrincipal × BridgeDb). IsSpent code_hash x.1) (sym e) h
            | inr (r, _, _, _, e) ↦
                subst (λ (x : Answer BridgePrincipal × BridgeDb). IsSpent code_hash x.1) (sym e)
                  (All-map (λ g. is_claimable code_hash g ≡ false)
                    (λ g. is_claimable code_hash g ≡ false)
                    (when (is_claimable r.grant.code_hash)
                      (λ g. record g { consumed_at = some now }))
                    (consume-keeps r.grant.code_hash now) db.grants h)
          ]

    Step-IsSpent :
        (s t : BridgeDb)
        → Step urlsplit scrypt sha256 s256 verify code_hash s t
        → IsSpent code_hash s
        → IsSpent code_hash t
    Step-IsSpent s t (created instance_id client_id secret redirect_uri e) h =
        subst IsClosed
          (sym (
            ap (λ (d : BridgeDb). d.grants) e
            ∙ create_client-grants instance_id client_id secret redirect_uri s))
          h
    Step-IsSpent s t (rotated client_id secret now e) h =
        subst IsClosed
          (sym (
            ap (λ (d : BridgeDb). d.grants) e ∙ rotate_client_secret-grants client_id secret now s))
          h
    Step-IsSpent s t (revoked client_id now e) h =
        subst IsClosed
          (sym (ap (λ (d : BridgeDb). d.grants) e ∙ revoke_client-grants client_id now s)) h
    Step-IsSpent s t (deleted instance_public_id e) h =
        subst (IsSpent code_hash) (sym e) (delete_client-IsSpent instance_public_id s h)
    Step-IsSpent s t
          (issued code client_id instance_id user_id session_id redirect_uri code_challenge ttl now
            clock other e)
          h =
        subst (IsSpent code_hash) (sym e) (
          issue_grant-IsSpent code client_id instance_id user_id session_id redirect_uri
            code_challenge ttl now clock s other h)
    Step-IsSpent s t (redeemed code client_id secret redirect_uri verifier now e) h =
        subst (IsSpent code_hash) (sym e)
          (redeem-IsSpent code client_id secret redirect_uri verifier now s h)
    Step-IsSpent s t (changed store gone_client gone e) h =
        subst (IsSpent code_hash) (sym e)
          (delete_where-keeps (λ g. is_claimable code_hash g ≡ false) gone s.grants h)

    Reach-IsSpent :
        (s t : BridgeDb)
        → Reach urlsplit scrypt sha256 s256 verify code_hash s t
        → IsSpent code_hash s
        → IsSpent code_hash t
    Reach-IsSpent s t here h = h
    Reach-IsSpent s t (next {t = u} steps step) h =
        Step-IsSpent u t step (Reach-IsSpent s u steps h)

  module _ (code : String) where
    spent-refused {ℓ} :
        {T : Type ℓ} (issue_token : BridgePrincipal → T)
        (client_id secret redirect_uri verifier : String) (now : ℕ) (db : BridgeDb)
        → IsSpent (sha256 code) db
        → redeem sha256 s256 verify issue_token code client_id secret redirect_uri verifier now db
          ≡ (raised invalid_grant, db)
    spent-refused issue_token client_id secret redirect_uri verifier now db h =
        elim (redeem-cases sha256 s256 verify issue_token code client_id secret redirect_uri
          verifier now db) [
            | inl e ↦ e
            | inr (r, row, _, one, _) ↦
                let found = (candidate-inv (sha256 code) client_id db r row).0 in
                let same =
                  eq_of_== r.grant.code_hash (sha256 code)
                    (find_sound (has_code (sha256 code)) db.grants r.grant found) in
                let zero = no_rows (is_claimable (sha256 code)) db.grants h in
                absurd (cc (zero, rw same at one))
          ]

    -- A code is redeemed at most once. After a redemption that is answered, whatever the bridge and
    -- the rest of the program do to the database, as long as no later code has the digest of this
    -- one, every further redemption of the code is refused and changes nothing, for whichever client,
    -- secret, redirect URI and verifier and at whatever time.
    pub redeem_once {ℓ} :
        {T : Type ℓ} (issue_token : BridgePrincipal → T) (token : T)
        (client_id secret redirect_uri verifier : String) (now : ℕ)
        (client_id' secret' redirect_uri' verifier' : String) (now' : ℕ) (db db' db'' : BridgeDb)
        → redeem sha256 s256 verify issue_token code client_id secret redirect_uri verifier now db
          ≡ (answer token, db')
        → Reach urlsplit scrypt sha256 s256 verify (sha256 code) db' db''
        → redeem sha256 s256 verify issue_token code client_id' secret' redirect_uri' verifier' now'
            db''
          ≡ (raised invalid_grant, db'')
    redeem_once issue_token token client_id secret redirect_uri verifier now client_id' secret'
          redirect_uri' verifier' now' db db' db'' h steps =
        let (r, ((found, _, _, _), _, _), _, after) =
          redeem_sound sha256 s256 verify issue_token code client_id secret redirect_uri verifier
            now db db' token h in
        let same =
          eq_of_== r.grant.code_hash (sha256 code)
            (find_sound (has_code (sha256 code)) db.grants r.grant found) in
        let spent : IsSpent (sha256 code) db' =
          subst (IsSpent (sha256 code))
            (sym (after ∙ ap (λ code_hash. consumed code_hash now db) same))
            (consumed-IsSpent (sha256 code) now db) in
        spent-refused issue_token client_id' secret' redirect_uri' verifier' now' db''
          (Reach-IsSpent (sha256 code) db' db'' steps spent)
