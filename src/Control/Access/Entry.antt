-- ===== src/Control/Access/Entry.antt =====
-- Who is let into an instance.
use openclaw_manager.Common.{
  String, Bool, true, false, not, ◌||◌, some, ◌==◌, string_eq, ◌≡◌, ap, ◌∙◌, ◌⊎◌, inl, inr, arith,
  Bool-cases, Option-cases, eq_of_==,
}
use openclaw_manager.Store.Rows.{Time, Db, User, Session, Instance}
use openclaw_manager.Store.Jobs.{instance_row}
use openclaw_manager.Store.Ports.{is_live}
use openclaw_manager.Store.Members.{get_instance_for_user, is_active_user, AccessRole}
use openclaw_manager.Store.Sessions.{get_session}
use openclaw_manager.Control.Access.{
  reply, is_admin, instance_for_entry, is_internal_provider, authorize_user,
  authorize_instance_access,
}

-- An administrator may enter every instance, another user those that the store gives the user.
abbrev pub MayEnter : Db → String → User → Instance → Type 0
MayEnter db instance_public_id u i =
    ((is_admin u.role ≡ true) × (instance_row db instance_public_id ≡ some i))
    ⊎ ((role : AccessRole) × (get_instance_for_user instance_public_id u.public_id db
          ≡ some (i, role)))

instance_for_entry-MayEnter :
    (instance_public_id : String) (u : User) (db : Db) (i : Instance)
    → instance_for_entry instance_public_id u db ≡ some i
    → MayEnter db instance_public_id u i
unfolding instance_for_entry
instance_for_entry-MayEnter instance_public_id u db i h = elim (Bool-cases (is_admin u.role)) [
  | inl e ↦ inl (e, rw (e, instance_for_entry) at h)
  | inr e ↦ elim (Option-cases (get_instance_for_user instance_public_id u.public_id db)) [
    | inl n ↦ absurd (cc (rw n at (rw (e, instance_for_entry) at h)))
    | inr ((j, role), n) ↦
        let k = rw n at (rw (e, instance_for_entry) at h) in
        let same : j ≡ i = ground (arith, k) in inr (role, n ∙ ap (λ x. some (x, role)) same)
  ]
]

-- Access to an instance is granted only if the token hash is well formed and belongs to an unexpired
-- session of an active user, the session is of the configured external provider, the instance is
-- active or stopped, and the user is an administrator or is given the instance by the store. The
-- identity in the reply is that user's.
pub authorize_instance_access_sound :
    (is_hex : String → Bool) (required_provider instance_public_id token_hash : String) (now : Time)
    (db : Db) (identity : String)
    → authorize_instance_access is_hex required_provider instance_public_id token_hash now db
      ≡ reply identity
    → (s : Session) × (u : User) × (i : Instance) × (is_hex token_hash ≡ true)
      × (get_session token_hash now db ≡ some (s, u))
      × (is_active_user u.status ≡ true)
      × (is_internal_provider required_provider ≡ false)
      × (s.provider ≡ required_provider)
      × (is_live i.status ≡ true)
      × MayEnter db instance_public_id u i
      × (u.public_id ≡ identity)
unfolding authorize_instance_access authorize_user
authorize_instance_access_sound is_hex required_provider instance_public_id token_hash now db
      identity h =
    elim (Bool-cases (is_hex token_hash)) [
      | inr e ↦ absurd (cc (rw (e, authorize_instance_access) at h))
      | inl e ↦ elim (Option-cases (get_session token_hash now db)) [
        | inl n ↦ absurd (cc (rw (n, authorize_user) at (rw (e, authorize_instance_access) at h)))
        | inr ((s, u), n) ↦
            elim (Bool-cases (
              not (is_active_user u.status)
              || is_internal_provider required_provider
              || not (s.provider == required_provider))) [
                | inl b ↦ absurd (
                    cc (
                      rw b at (rw (n, authorize_user) at (rw (e, authorize_instance_access) at h))))
                | inr b ↦ elim (Option-cases (instance_for_entry instance_public_id u db)) [
                  | inl q ↦ absurd (
                      cc (
                        rw q at (
                          rw b at
                            (rw (n, authorize_user) at (rw (e, authorize_instance_access) at h)))))
                  | inr (i, q) ↦ elim (Bool-cases (is_live i.status)) [
                    | inr l ↦ absurd (
                        cc (
                          rw l at (
                            rw q at (
                              rw b at (
                                rw (n, authorize_user) at
                                  (rw (e, authorize_instance_access) at h))))))
                    | inl l ↦
                        let k = rw l at (
                          rw q at (
                            rw b at (
                              rw (n, authorize_user) at
                                (rw (e, authorize_instance_access) at h)))) in
                        (
                          s,
                          u,
                          i,
                          e,
                          n,
                          ground (arith, b),
                          ground (arith, b),
                          eq_of_== s.provider required_provider (ground (arith, b)),
                          l,
                          instance_for_entry-MayEnter instance_public_id u db i q,
                          ground (arith, k),
                        )
                  ]
                ]
              ]
      ]
    ]
