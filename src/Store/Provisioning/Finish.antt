-- ===== src/Store/Provisioning/Finish.antt =====
-- The end of provisioning.
use openclaw_manager.Common.{
  String, true, false, not, ◌||◌, none, some, nat_eq, string_eq, option_eq, find, find_sound,
  eq_of_==, update_where, ◌≡◌, refl, sym, ap, subst, ◌∙◌, ◌⊎◌, inl, inr, arith, find-update_key,
  Bool-cases, Option-cases,
}
use mathlib.Core.Option
use openclaw_manager.Store.Rows.{
  Time, Db, Instance, InstanceStatus, provisioning, active, failed, allocated,
}
use openclaw_manager.Store.Error.{no_conflict, no_conflict_inv, ok, Result-cases, sequence-inv}
use openclaw_manager.Store.Jobs.{has_public_id, instance_row}
use openclaw_manager.Store.Ports.{
  holds_port, port_conflict, is_failed, is_active, is_provisioning, record_port, put_endpoint,
  instance_id_for_legacy_user,
}
use openclaw_manager.Store.Ports.Live.{IsSoleHolder, port_conflict-IsSoleHolder}
use openclaw_manager.Store.Ports.Records.{put_port-instances}
use openclaw_manager.Store.Provisioning.{
  upsert_credentials, CreationResult, provisioned, same_end, provisioned_port,
  provisioned_credentials, activate_provisioned, finish_instance_provisioning,
}

same_end_sound : (a b : InstanceStatus) → same_end a b ≡ true → a ≡ b
same_end_sound active active h = refl
same_end_sound failed failed h = refl
same_end_sound _ _ h = absurd (cc h)

is_provisioning_sound : (s : InstanceStatus) → is_provisioning s ≡ true → s ≡ provisioning
is_provisioning_sound provisioning h = refl
is_provisioning_sound _ h = absurd (cc h)

provisioned_port-instances :
    (result : CreationResult) (i : Instance) (now : Time) (db db' : Db)
    → provisioned_port result i now db ≡ ok (tt, db')
    → db'.instances ≡ db.instances
unfolding provisioned_port record_port put_endpoint
provisioned_port-instances result i now db db' h = elim (Option-cases result.port) [
  | inl e ↦ cc (rw (e, provisioned_port) at h)
  | inr (port, e) ↦
      elim (Result-cases (record_port port i.legacy_user_id allocated (some i.id) now db)) [
        | inr (x, n) ↦ absurd (cc (rw n at (rw (e, provisioned_port) at h)))
        | inl ((_, d), n) ↦
            let k = rw n at (rw (e, provisioned_port) at h) in
            let same : db'.instances ≡ d.instances = ground (arith, k) in
            same
            ∙ put_port-instances
                (record {
                  port = port;
                  instance_id = some i.id;
                  status = allocated;
                  released_at = none;
                })
                db d n
      ]
]

provisioned_credentials-instances :
    (result : CreationResult) (i : Instance) (db db' : Db)
    → provisioned_credentials result i db ≡ ok (tt, db')
    → db'.instances ≡ db.instances
unfolding provisioned_credentials upsert_credentials
provisioned_credentials-instances result i db db' h = elim (Option-cases i.legacy_user_id) [
  | inl e ↦ cc (rw (e, provisioned_credentials) at h)
  | inr (user_id, e) ↦ elim (Option-cases (instance_id_for_legacy_user user_id db)) [
    | inl n ↦ absurd (cc (rw (n, upsert_credentials) at (rw (e, provisioned_credentials) at h)))
    | inr (x, n) ↦
        let k = rw (n, upsert_credentials) at (rw (e, provisioned_credentials) at h) in
        ground (arith, k)
  ]
]

activate_provisioned-instances :
    (public_id : String) (result : CreationResult) (now : Time) (db db' : Db)
    → activate_provisioned public_id result now db ≡ ok (tt, db')
    → db'.instances ≡ db.instances
unfolding activate_provisioned
activate_provisioned-instances public_id result now db db' h =
    elim (Option-cases (instance_row db public_id)) [
      | inl e ↦ absurd (cc (rw (e, activate_provisioned) at h))
      | inr (i, e) ↦
          let k = rw (e, activate_provisioned) at h in
          let (_, d, first, second) =
            sequence-inv (provisioned_port result i now) (λ _. provisioned_credentials result i) db
              db' tt k in
          provisioned_credentials-instances result i d db' second
          ∙ provisioned_port-instances result i now db d first
    ]

same_end_refl :
    (s : InstanceStatus) → not (is_active s || is_failed s) ≡ false → same_end s s ≡ true
same_end_refl active h = refl
same_end_refl failed h = refl
same_end_refl _ h = absurd (cc h)

ends-holds_port :
    (s : InstanceStatus) → not (is_active s || is_failed s) ≡ false → holds_port s ≡ true
ends-holds_port active h = refl
ends-holds_port failed h = refl
ends-holds_port _ h = absurd (cc h)

module _ (conf_dir public_id : String) (status : InstanceStatus) (result : CreationResult)
    (now : Time) where
  abbrev pub HasEnded : Db → Db → Type 0
  HasEnded db db' =
      (i : Instance) × (instance_row db public_id ≡ some i)
      × ((i.status ≡ status) × (db' ≡ db)
          ⊎ (i.status ≡ provisioning)
            × (instance_row db' public_id ≡ some (provisioned conf_dir status result now i))
            × IsSoleHolder (provisioned conf_dir status result now i) db.instances)

  pub finish-inv :
      (db db' : Db)
      → finish_instance_provisioning conf_dir public_id status result now db ≡ ok (tt, db')
      → HasEnded db db'
  unfolding finish_instance_provisioning
  finish-inv db db' h = elim (Bool-cases (not (is_active status || is_failed status))) [
    | inl e ↦ absurd (cc (rw (e, finish_instance_provisioning) at h))
    | inr e ↦ elim (Option-cases (instance_row db public_id)) [
      | inl n ↦ absurd (cc (rw n at (rw (e, finish_instance_provisioning) at h)))
      | inr (i, n) ↦ elim (Bool-cases (same_end i.status status)) [
        | inl q ↦ (
          i,
          n,
          inl (
            same_end_sound i.status status q,
            ground (arith, rw q at (rw n at (rw (e, finish_instance_provisioning) at h))),
          ),
        )
        | inr q ↦ elim (Bool-cases (is_provisioning i.status)) [
          | inr g ↦
              absurd (cc (rw g at (rw q at (rw n at (rw (e, finish_instance_provisioning) at h)))))
          | inl g ↦
              let conflict =
                port_conflict public_id (provisioned conf_dir status result now i) db.instances in
              let checked =
                rw g at (rw q at (rw n at (rw (e, finish_instance_provisioning) at h))) in
              let k = no_conflict conflict _ (tt, db') checked in
              let own : i.public_id ≡ public_id =
                eq_of_== i.public_id public_id
                  (find_sound (has_public_id public_id) db.instances i n) in
              let d = record db {
                instances =
                    update_where (has_public_id public_id) (provisioned conf_dir status result now)
                      db.instances;
              } in
              let found : instance_row d public_id
                  ≡ some (provisioned conf_dir status result now i) =
                find-update_key (has_public_id public_id) (provisioned conf_dir status result now)
                  (λ x t. t) db.instances
                ∙ ap (Option.map (provisioned conf_dir status result now)) n in
              let rows : db'.instances ≡ d.instances = elim (Bool-cases (is_active status)) [
                | inl a ↦ activate_provisioned-instances public_id result now d db' (rw a at k)
                | inr a ↦ ground (arith, rw a at k)
              ] in
              (
                i,
                n,
                inr (
                  is_provisioning_sound i.status g,
                  ap (find (has_public_id public_id)) rows ∙ found,
                  port_conflict-IsSoleHolder (provisioned conf_dir status result now i) db.instances
                      (ends-holds_port status e)
                      (subst
                        (λ (p : String).
                          port_conflict p (provisioned conf_dir status result now i) db.instances
                          ≡ false)
                        (sym own) (no_conflict_inv conflict _ (tt, db') checked)),
                ),
              )
        ]
      ]
    ]
  ]

  finish-valid :
      (db db' : Db)
      → finish_instance_provisioning conf_dir public_id status result now db ≡ ok (tt, db')
      → not (is_active status || is_failed status) ≡ false
  unfolding finish_instance_provisioning
  finish-valid db db' h = elim (Bool-cases (not (is_active status || is_failed status))) [
    | inl e ↦ absurd (cc (rw (e, finish_instance_provisioning) at h))
    | inr e ↦ e
  ]

  finish-again :
      (db : Db) (i : Instance)
      → not (is_active status || is_failed status) ≡ false
      → instance_row db public_id ≡ some i
      → i.status ≡ status
      → finish_instance_provisioning conf_dir public_id status result now db ≡ ok (tt, db)
  unfolding finish_instance_provisioning
  finish-again db i valid e same =
      rw (valid, finish_instance_provisioning)
        (rw e
          (rw (subst (λ s. same_end s status ≡ true) (sym same) (same_end_refl status valid)) refl))

-- If the end of provisioning is recorded without an error, then the instance either had that status
-- already, and nothing is written, or was provisioning, its row is the one with the results of the
-- creation, and no other instance but a deleted one has the port of that row. To record the same end again, at any later time and with any results, is no error
-- and changes nothing.
pub finish_instance_provisioning_once :
    (conf_dir public_id : String) (status : InstanceStatus) (result again : CreationResult)
    (now later : Time) (db db' : Db)
    → finish_instance_provisioning conf_dir public_id status result now db ≡ ok (tt, db')
    → HasEnded conf_dir public_id status result now db db'
      × (finish_instance_provisioning conf_dir public_id status again later db' ≡ ok (tt, db'))
finish_instance_provisioning_once conf_dir public_id status result again now later db db' h =
    let (i, found, ended) = finish-inv conf_dir public_id status result now db db' h in
    let valid = finish-valid conf_dir public_id status result now db db' h in
    (
      (i, found, ended),
      elim ended [
        | inl (same, final) ↦
            finish-again conf_dir public_id status again later db' i valid
              (ap (λ d. instance_row d public_id) final ∙ found) same
        | inr (_, row, _) ↦
            finish-again conf_dir public_id status again later db'
              (provisioned conf_dir status result now i) valid row refl
      ],
    )
