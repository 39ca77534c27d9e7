-- ===== src/Store/Members/Access.antt =====
-- Who reaches an instance, and how membership changes that.
use openclaw_manager.Common.{
  ℕ, String, true, false, not, ◌||◌, any, Option, none, some, ◌==◌, nat_eq, string_eq, option_eq,
  ◌≡◌, ◌≢◌, refl, ap, subst, ◌∙◌, ◌⊎◌, inl, inr, arith, find-upsert_same, find-delete_self,
  Bool-cases, Option-cases, eq_of_==, ne_of_==, ==_false,
}
use mathlib.Core.Option
use openclaw_manager.Store.Rows.{Db, User, Instance, Member, MemberRole}
use openclaw_manager.Store.Error.{no_conflict, ok}
use openclaw_manager.Store.Ports.{user_exists}
use openclaw_manager.Store.Jobs.{instance_row}
use openclaw_manager.Store.Members.{
  is_active_user, is_member_role, user_row, is_member, member_row, AccessRole, owner, member,
  access_role, get_instance_for_user, put_member, add_instance_member, remove_instance_member,
}

-- Why a user may reach an instance: as its owner, or as one of its members.
abbrev pub Reaches : Db → Instance → User → AccessRole → Type 0
Reaches db i u role =
    ((i.owner_user_id ≡ u.id) × (role ≡ owner))
    ⊎ ((m : Member) × (member_row db i.id u.id ≡ some m)
        × (i.owner_user_id ≢ u.id)
        × (role ≡ member m.role))

access_role-Reaches :
    (db : Db) (i : Instance) (u : User) (role : AccessRole)
    → access_role db i u ≡ some role
    → Reaches db i u role
access_role-Reaches db i u role h = elim (Bool-cases (i.owner_user_id == u.id)) [
  | inl e ↦ inl (eq_of_== i.owner_user_id u.id e, ground (arith, rw e at h))
  | inr e ↦ elim (Option-cases (member_row db i.id u.id)) [
    | inl n ↦ absurd (cc (rw (e, n) at h))
    | inr (m, n) ↦ inr (m, n, ne_of_== i.owner_user_id u.id e, ground (arith, rw (e, n) at h))
  ]
]

-- the query, once its two rows are known
get_instance_for_user_rows :
    (ipid upid : String) (db : Db) (u : User) (i : Instance)
    → user_row db upid ≡ some u
    → instance_row db ipid ≡ some i
    → is_active_user u.status ≡ true
    → get_instance_for_user ipid upid db ≡ Option.map (λ role. (i, role)) (access_role db i u)
unfolding get_instance_for_user
get_instance_for_user_rows ipid upid db u i e n t = rw (e, get_instance_for_user) (rw n (rw t refl))

member_row-put_member :
    (m : Member) (db : Db)
    → (x : Member) × (member_row (put_member m db) m.instance_id m.user_id ≡ some x)
      × (x.role ≡ m.role)
unfolding put_member
member_row-put_member m db =
    let same =
      find-upsert_same (is_member m.instance_id m.user_id) (λ old. record old { role = m.role }) m
        db.members (λ y e. e) (ground arith) in
    elim (Option-cases (member_row db m.instance_id m.user_id)) [
      | inl e ↦ (m, same ∙ rw e refl, refl)
      | inr (y, e) ↦ (record y { role = m.role }, same ∙ rw e refl, refl)
    ]

access_role_member :
    (db : Db) (i : Instance) (u : User) (m : Member)
    → (i.owner_user_id == u.id) ≡ false
    → member_row db i.id u.id ≡ some m
    → access_role db i u ≡ some (member m.role)
access_role_member db i u m o found = rw o (rw found refl)

rows-put_member :
    (m : Member) (db : Db)
    → ((k : String) → user_row (put_member m db) k ≡ user_row db k)
      × ((k : String) → instance_row (put_member m db) k ≡ instance_row db k)
unfolding put_member
rows-put_member m db = (λ k. refl, λ k. refl)

module _ (ipid upid : String) (db : Db) where
  -- A user is given an instance only if the account is active and the user owns the instance or is
  -- one of its members; the role that comes with it says which.
  pub get_instance_for_user_sound :
      (i : Instance) (role : AccessRole)
      → get_instance_for_user ipid upid db ≡ some (i, role)
      → (u : User) × (user_row db upid ≡ some u)
        × (instance_row db ipid ≡ some i)
        × (is_active_user u.status ≡ true)
        × Reaches db i u role
  unfolding get_instance_for_user
  get_instance_for_user_sound i role h = elim (Option-cases (user_row db upid)) [
    | inl e ↦ absurd (cc (rw (e, get_instance_for_user) at h))
    | inr (u, e) ↦ elim (Option-cases (instance_row db ipid)) [
      | inl n ↦ absurd (cc (rw n at (rw (e, get_instance_for_user) at h)))
      | inr (j, n) ↦ elim (Bool-cases (is_active_user u.status)) [
        | inr t ↦ absurd (cc (rw t at (rw n at (rw (e, get_instance_for_user) at h))))
        | inl t ↦ elim (Option-cases (access_role db j u)) [
          | inl q ↦ absurd (cc (rw q at (rw t at (rw n at (rw (e, get_instance_for_user) at h)))))
          | inr (r, q) ↦
              let k = rw q at (rw t at (rw n at (rw (e, get_instance_for_user) at h))) in
              let ji : j ≡ i = ground (arith, k) in
              let rr : r ≡ role = ground (arith, k) in
              (
                u,
                e,
                n ∙ ap some ji,
                t,
                access_role-Reaches db i u role
                    (subst (λ x. access_role db x u ≡ some role) ji (q ∙ ap some rr)),
              )
        ]
      ]
    ]
  ]

  module _ (role : MemberRole) (created_by : Option ℕ) where
    abbrev membership : Instance → User → Member
    membership i u = record {
      instance_id = i.id;
      user_id = u.id;
      role = role;
      created_by_user_id = created_by;
    }

    -- What an addition that ends well has checked and written.
    add-inv :
        (db' : Db)
        → add_instance_member ipid upid role created_by db ≡ ok (tt, db')
        → (i : Instance) × (u : User) × (instance_row db ipid ≡ some i)
          × (user_row db upid ≡ some u)
          × (is_active_user u.status ≡ true)
          × ((i.owner_user_id == u.id) ≡ false)
          × (is_member_role role ≡ true)
          × (db' ≡ put_member (membership i u) db)
    unfolding add_instance_member
    add-inv db' h = elim (Bool-cases (is_member_role role)) [
      | inr r ↦ absurd (cc (rw (r, add_instance_member) at h))
      | inl r ↦ elim (Option-cases (instance_row db ipid)) [
        | inl e ↦ absurd (cc (rw e at (rw (r, add_instance_member) at h)))
        | inr (i, e) ↦ elim (Option-cases (user_row db upid)) [
          | inl n ↦ absurd (cc (rw n at (rw e at (rw (r, add_instance_member) at h))))
          | inr (u, n) ↦ elim (Bool-cases (is_active_user u.status)) [
            | inr a ↦ absurd (cc (rw a at (rw n at (rw e at (rw (r, add_instance_member) at h)))))
            | inl a ↦ elim (Bool-cases (i.owner_user_id == u.id)) [
              | inl o ↦
                  absurd
                    (cc (rw o at (rw a at (rw n at (rw e at (rw (r, add_instance_member) at h))))))
              | inr o ↦
                  let k =
                    no_conflict
                      (not (any (is_member i.id u.id) db.members || user_exists db created_by)) _
                      (tt, db')
                      (rw o at (rw a at (rw n at (rw e at (rw (r, add_instance_member) at h))))) in
                  (i, u, e, n, a, o, r, cc k)
            ]
          ]
        ]
      ]
    ]

    -- After a user is added to an instance, the query for that user returns the instance with the
    -- new role, whether or not there was a membership before.
    pub get_instance_for_user-add :
        (db' : Db)
        → add_instance_member ipid upid role created_by db ≡ ok (tt, db')
        → (i : Instance) × (instance_row db ipid ≡ some i)
          × (get_instance_for_user ipid upid db' ≡ some (i, member role))
    get_instance_for_user-add db' h =
        let (i, u, e, n, a, o, _, final) = add-inv db' h in
        let d = put_member (membership i u) db in
        let (x, found, same) = member_row-put_member (membership i u) db in
        let (users, instances) = rows-put_member (membership i u) db in
        (
          i,
          e,
          ap (get_instance_for_user ipid upid) final
              ∙ get_instance_for_user_rows ipid upid d u i (users upid ∙ n) (instances ipid ∙ e) a
              ∙ ap (Option.map (λ r. (i, r)))
                  (access_role_member d i u x o found ∙ ap (λ r. some (member r)) same),
        )

  -- After a membership is removed, the query for that user returns nothing, unless the user owns
  -- the instance.
  pub get_instance_for_user-remove :
      (u : User) (i : Instance)
      → user_row db upid ≡ some u
      → instance_row db ipid ≡ some i
      → i.owner_user_id ≢ u.id
      → get_instance_for_user ipid upid (remove_instance_member ipid upid db).1 ≡ none
  unfolding get_instance_for_user remove_instance_member
  get_instance_for_user-remove u i e n ne =
      rw (n, remove_instance_member)
        (rw e (
          rw (e, get_instance_for_user)
            (rw n (
              rw (==_false i.owner_user_id u.id ne)
                (rw (find-delete_self (is_member i.id u.id) db.members) (ground arith))))))
