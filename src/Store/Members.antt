-- ===== src/Store/Members.antt =====
-- Members of instances and who may reach an instance, in services/manager-web/metadata_store.py.
pub mod Access
use openclaw_manager.Common.{
  ℕ, String, Bool, true, false, not, ◌&&◌, ◌||◌, Option, none, some, List, [], ◌∷◌, ◌==◌, nat_eq,
  string_eq, option_eq, if◌then◌else◌, find, delete_where, any, upsert, map,
}
use mathlib.Core.Option
use openclaw_manager.Store.Rows.{Db, User, UserStatus, active, Instance, Member, MemberRole, other}
use openclaw_manager.Store.Error.{
  ok, err, Tx, integrity_error, instance_not_found, invalid_member_role,
  active_member_user_not_found, owner_cannot_be_member,
}
use openclaw_manager.Store.Jobs.{instance_row}
use openclaw_manager.Store.Ports.{is_live, user_exists}

abbrev pub is_active_user : UserStatus → Bool
is_active_user active = true
is_active_user _ = false

-- role in {"manager", "operator", "viewer"}
abbrev is_member_role : MemberRole → Bool
is_member_role (other text) = false
is_member_role _ = true

abbrev pub user_row : Db → String → Option User
user_row db public_id = find (λ (u : User). u.public_id == public_id) db.users

abbrev is_member : ℕ → ℕ → Member → Bool
is_member instance_id user_id m = m.instance_id == instance_id && m.user_id == user_id

abbrev member_row : Db → ℕ → ℕ → Option Member
member_row db instance_id user_id = find (is_member instance_id user_id) db.members

-- The column `access_role` of the queries below.
pub data AccessRole : Type 0 where
  owner : AccessRole
  member : MemberRole → AccessRole

-- CASE WHEN owner … THEN 'owner' ELSE m.role END, over LEFT JOIN instance_members
abbrev access_role : Db → Instance → User → Option AccessRole
access_role db i u =
    if i.owner_user_id == u.id
    then some owner
    else elim (member_row db i.id u.id) [ none ↦ none | some m ↦ some (member m.role) ]

unfoldable pub get_instance_for_user : String → String → Db → Option (Instance × AccessRole)
get_instance_for_user instance_public_id user_public_id db = elim (user_row db user_public_id) [
  | none ↦ none
  | some u ↦ elim (instance_row db instance_public_id) [
    | none ↦ none
    | some i ↦
        if is_active_user u.status
        then Option.map (λ role. (i, role)) (access_role db i u)
        else none
  ]
]

visible_to : Db → User → List Instance → List (Instance × AccessRole)
visible_to db u [] = []
visible_to db u (i ∷ rest) =
    let more = visible_to db u rest in
    elim (access_role db i u) [
      | none ↦ more
      | some role ↦ if is_live i.status then (i, role) ∷ more else more
    ]

list_instances_for_user : String → Db → List (Instance × AccessRole)
unfolding visible_to
list_instances_for_user user_public_id db = elim (user_row db user_public_id) [
  | none ↦ []
  | some u ↦ visible_to db u db.instances
]

-- INSERT … ON CONFLICT(instance_id, user_id) DO UPDATE SET role
unfoldable pub put_member : Member → Db → Db
put_member m db = record db {
  members =
      upsert (is_member m.instance_id m.user_id) (λ old. record old { role = m.role }) m db.members;
}

-- The foreign key on the creator is met by an INSERT, so not where the role of a member changes.
unfoldable pub add_instance_member : String → String → MemberRole → Option ℕ → Tx (Unit {0})
unfolding put_member
add_instance_member instance_public_id user_public_id role created_by db =
    if not (is_member_role role)
    then err invalid_member_role
    else elim (instance_row db instance_public_id) [
      | none ↦ err instance_not_found
      | some i ↦ elim (user_row db user_public_id) [
        | none ↦ err active_member_user_not_found
        | some u ↦
            if not (is_active_user u.status)
            then err active_member_user_not_found
            else if i.owner_user_id == u.id
            then err owner_cannot_be_member
            else if not (any (is_member i.id u.id) db.members || user_exists db created_by)
            then err integrity_error
            else ok (
              tt,
              put_member
                  (record {
                    instance_id = i.id;
                    user_id = u.id;
                    role = role;
                    created_by_user_id = created_by;
                  })
                  db,
            )
      ]
    ]

-- The result is `cursor.rowcount > 0`. A subquery that finds no row is NULL, which equals nothing.
pub remove_instance_member : String → String → Db → Bool × Db
remove_instance_member instance_public_id user_public_id db =
    elim (instance_row db instance_public_id) [
      | none ↦ (false, db)
      | some i ↦ elim (user_row db user_public_id) [
        | none ↦ (false, db)
        | some u ↦ (
          any (is_member i.id u.id) db.members,
          record db { members = delete_where (is_member i.id u.id) db.members },
        )
      ]
    ]

members_of : Db → Instance → List Member → List (User × MemberRole)
members_of db i [] = []
members_of db i (m ∷ rest) =
    let more = members_of db i rest in
    if m.instance_id == i.id
    then elim (find (λ (u : User). u.id == m.user_id) db.users) [
      | none ↦ more
      | some u ↦ (u, m.role) ∷ more
    ]
    else more

-- The rows of `list_instance_members`: a member and the role. The rows of the table are in the order
-- of their ids.
list_instance_members : String → Db → List (User × MemberRole)
unfolding members_of
list_instance_members instance_public_id db = elim (instance_row db instance_public_id) [
  | none ↦ []
  | some i ↦ members_of db i db.members
]
