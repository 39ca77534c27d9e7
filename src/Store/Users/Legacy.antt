-- ===== src/Store/Users/Legacy.antt =====
-- The user of a legacy name is fixed by the first call that asks for it.
use openclaw_manager.Common.{
  ℕ, String, true, none, some, ◌==◌, nat_eq, string_eq, find, insert, any, ◌≡◌, refl, ap, ◌∙◌,
  subst, ◌⊎◌, inl, inr, arith, find-insert, ==_refl, Bool-cases, Option-cases,
}
use openclaw_manager.Store.Rows.{Db, User, Identity, active, user}
use openclaw_manager.Store.Error.{Result, ok, Result-cases}
use openclaw_manager.Store.Users.{
  has_name, is_identity, insert_user, legacy_identity, ensure_legacy_user,
}

legacy_identity-is_identity :
    (id : ℕ) (username : String)
    → is_identity "legacy" username (legacy_identity id username) ≡ true
legacy_identity-is_identity id username = rw (==_refl username) refl

module _ (normalize : String → String) (again username : String) (db : Db) where
  -- a call for a name whose identity is there and whose user, if any has the name, is that one
  settled :
      (i : Identity)
      → find (is_identity "legacy" username) db.identities ≡ some i
      → (find (has_name (normalize username)) db.users ≡ none)
        ⊎ ((u : User) × (find (has_name (normalize username)) db.users ≡ some u)
            × ((u.id == i.user_id) ≡ true))
      → ensure_legacy_user normalize again username db ≡ ok (i.user_id, db)
  unfolding ensure_legacy_user
  settled i e (inl n) = rw (e, ensure_legacy_user) (rw n refl)
  settled i e (inr (u, n, s)) = rw (e, ensure_legacy_user) (rw n (rw s refl))

  found_after :
      (id : ℕ)
      → find (is_identity "legacy" username) db.identities ≡ none
      → find (is_identity "legacy" username) (insert (legacy_identity id username) db.identities)
        ≡ some (legacy_identity id username)
  found_after id e =
      find-insert (is_identity "legacy" username) (legacy_identity id username) db.identities
      ∙ rw e (rw (legacy_identity-is_identity id username) refl)

  insert_user-find :
      (public_id : String) (d : Db) (u : User)
      → find (has_name (normalize username)) db.users ≡ none
      → insert_user public_id username (normalize username) active db ≡ ok (u, d)
      → (find (has_name (normalize username)) d.users ≡ some u) × (d.identities ≡ db.identities)
  unfolding insert_user
  insert_user-find public_id d u e h =
      elim (Bool-cases (any (λ (x : User). x.public_id == public_id) db.users)) [
        | inl p ↦ absurd (cc (rw (p, insert_user) at h))
        | inr p ↦ elim (Bool-cases (any (has_name (normalize username)) db.users)) [
          | inl n ↦ absurd (cc (rw n at (rw (p, insert_user) at h)))
          | inr n ↦
              let k = rw n at (rw (p, insert_user) at h) in
              let row : User = record {
                id = db.next_user_id;
                public_id = public_id;
                username = username;
                normalized_username = normalize username;
                role = user;
                status = active;
              } in
              let same : row ≡ u = ground (arith, k) in
              let users : d.users ≡ insert row db.users = ground (arith, k) in
              (
                ap (find (has_name (normalize username))) users
                    ∙ find-insert (has_name (normalize username)) row db.users
                    ∙ rw e (rw (==_refl (normalize username)) (ap some same)),
                ground (arith, k),
              )
        ]
      ]

-- The state after a user was linked to the name.
linked :
    (normalize : String → String) (again username : String) (db : Db) (u : User) (db' : Db) (id : ℕ)
    → find (is_identity "legacy" username) db.identities ≡ none
    → find (has_name (normalize username)) db.users ≡ some u
    → Path
        (Result (ℕ × Db))
        (ok (u.id, record db { identities = insert (legacy_identity u.id username) db.identities }))
        (ok (id, db'))
    → ensure_legacy_user normalize again username db' ≡ ok (id, db')
linked normalize again username db u db' id e n k =
    let d : Db = record db { identities = insert (legacy_identity u.id username) db.identities } in
    let same : d ≡ db' = ground (arith, k) in
    let this : u.id ≡ id = ground (arith, k) in
    subst (λ x. ensure_legacy_user normalize again username x ≡ ok (id, x)) same
      (settled normalize again username d (legacy_identity u.id username)
          (found_after normalize again username db u.id e) (inr (u, n, ==_refl u.id))
        ∙ ap (λ x. ok (x, d)) this)

-- The user of a legacy name is found or made once: a second call for the name, with whatever new
-- public id, returns the same user and changes nothing.
pub ensure_legacy_user_idempotent :
    (normalize : String → String) (first again username : String) (db db' : Db) (id : ℕ)
    → ensure_legacy_user normalize first username db ≡ ok (id, db')
    → ensure_legacy_user normalize again username db' ≡ ok (id, db')
unfolding ensure_legacy_user
ensure_legacy_user_idempotent normalize first again username db db' id h =
    elim (Option-cases (find (is_identity "legacy" username) db.identities)) [
      | inr (i, e) ↦ elim (Option-cases (find (has_name (normalize username)) db.users)) [
        | inl n ↦
            let k = rw n at (rw (e, ensure_legacy_user) at h) in
            let same : db ≡ db' = ground (arith, k) in
            let this : i.user_id ≡ id = ground (arith, k) in
            subst (λ d. ensure_legacy_user normalize again username d ≡ ok (id, d)) same
              (settled normalize again username db i e (inl n) ∙ ap (λ x. ok (x, db)) this)
        | inr (u, n) ↦ elim (Bool-cases (u.id == i.user_id)) [
          | inr s ↦ absurd (cc (rw s at (rw n at (rw (e, ensure_legacy_user) at h))))
          | inl s ↦
              let k = rw s at (rw n at (rw (e, ensure_legacy_user) at h)) in
              let same : db ≡ db' = ground (arith, k) in
              let this : i.user_id ≡ id = ground (arith, k) in
              subst (λ d. ensure_legacy_user normalize again username d ≡ ok (id, d)) same
                (settled normalize again username db i e (inr (u, n, s))
                  ∙ ap (λ x. ok (x, db)) this)
        ]
      ]
      | inl e ↦ elim (Option-cases (find (has_name (normalize username)) db.users)) [
        | inr (u, n) ↦ elim (Bool-cases (u.username == username)) [
          | inr s ↦ absurd (cc (rw s at (rw n at (rw (e, ensure_legacy_user) at h))))
          | inl s ↦
              let k = rw s at (rw n at (rw (e, ensure_legacy_user) at h)) in
              linked normalize again username db u db' id e n k
        ]
        | inl n ↦ elim (Result-cases (insert_user first username (normalize username) active db)) [
          | inr (x, s) ↦ absurd (cc (rw s at (rw n at (rw (e, ensure_legacy_user) at h))))
          | inl ((u, d), s) ↦
              let k = rw s at (rw n at (rw (e, ensure_legacy_user) at h)) in
              let (found, ids) = insert_user-find normalize again username db first d u n s in
              linked normalize again username d u db' id
                (ap (find (is_identity "legacy" username)) ids ∙ e) found k
        ]
      ]
    ]
