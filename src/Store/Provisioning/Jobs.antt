-- ===== src/Store/Provisioning/Jobs.antt =====
-- The end of provisioning leaves the execution jobs alone.
use openclaw_manager.Common.{
  String, not, ◌||◌, none, some, nat_eq, string_eq, option_eq, ◌≡◌, ◌∙◌, inl, inr, arith,
  Bool-cases, Option-cases,
}
use openclaw_manager.Store.Rows.{Time, Db, Instance, InstanceStatus, allocated}
use openclaw_manager.Store.Error.{no_conflict, ok, Result-cases, sequence-inv}
use openclaw_manager.Store.Jobs.{instance_row}
use openclaw_manager.Store.Ports.{
  port_conflict, is_failed, is_active, is_provisioning, record_port, put_endpoint,
  instance_id_for_legacy_user,
}
use openclaw_manager.Store.Ports.Records.{put_port-jobs}
use openclaw_manager.Store.Provisioning.{
  upsert_credentials, CreationResult, provisioned, same_end, provisioned_port,
  provisioned_credentials, activate_provisioned, finish_instance_provisioning,
}

provisioned_port-jobs :
    (result : CreationResult) (i : Instance) (now : Time) (db db' : Db)
    → provisioned_port result i now db ≡ ok (tt, db')
    → db'.jobs ≡ db.jobs
unfolding provisioned_port record_port put_endpoint
provisioned_port-jobs result i now db db' h = elim (Option-cases result.port) [
  | inl e ↦ cc (rw (e, provisioned_port) at h)
  | inr (port, e) ↦
      elim (Result-cases (record_port port i.legacy_user_id allocated (some i.id) now db)) [
        | inr (x, n) ↦ absurd (cc (rw n at (rw (e, provisioned_port) at h)))
        | inl ((_, d), n) ↦
            let k = rw n at (rw (e, provisioned_port) at h) in
            let same : db'.jobs ≡ d.jobs = ground (arith, k) in
            same
            ∙ put_port-jobs
                (record {
                  port = port;
                  instance_id = some i.id;
                  status = allocated;
                  released_at = none;
                })
                db d n
      ]
]

provisioned_credentials-jobs :
    (result : CreationResult) (i : Instance) (db db' : Db)
    → provisioned_credentials result i db ≡ ok (tt, db')
    → db'.jobs ≡ db.jobs
unfolding provisioned_credentials upsert_credentials
provisioned_credentials-jobs result i db db' h = elim (Option-cases i.legacy_user_id) [
  | inl e ↦ cc (rw (e, provisioned_credentials) at h)
  | inr (user_id, e) ↦ elim (Option-cases (instance_id_for_legacy_user user_id db)) [
    | inl n ↦ absurd (cc (rw (n, upsert_credentials) at (rw (e, provisioned_credentials) at h)))
    | inr (x, n) ↦
        let k = rw (n, upsert_credentials) at (rw (e, provisioned_credentials) at h) in
        ground (arith, k)
  ]
]

activate_provisioned-jobs :
    (public_id : String) (result : CreationResult) (now : Time) (db db' : Db)
    → activate_provisioned public_id result now db ≡ ok (tt, db')
    → db'.jobs ≡ db.jobs
unfolding activate_provisioned
activate_provisioned-jobs public_id result now db db' h =
    elim (Option-cases (instance_row db public_id)) [
      | inl e ↦ absurd (cc (rw (e, activate_provisioned) at h))
      | inr (i, e) ↦
          let k = rw (e, activate_provisioned) at h in
          let (_, d, first, second) =
            sequence-inv (provisioned_port result i now) (λ _. provisioned_credentials result i) db
              db' tt k in
          provisioned_credentials-jobs result i d db' second
          ∙ provisioned_port-jobs result i now db d first
    ]

pub finish_instance_provisioning-jobs :
    (conf_dir public_id : String) (status : InstanceStatus) (result : CreationResult) (now : Time)
    (db db' : Db)
    → finish_instance_provisioning conf_dir public_id status result now db ≡ ok (tt, db')
    → db'.jobs ≡ db.jobs
unfolding finish_instance_provisioning
finish_instance_provisioning-jobs conf_dir public_id status result now db db' h =
    elim (Bool-cases (not (is_active status || is_failed status))) [
      | inl e ↦ absurd (cc (rw (e, finish_instance_provisioning) at h))
      | inr e ↦ elim (Option-cases (instance_row db public_id)) [
        | inl n ↦ absurd (cc (rw n at (rw (e, finish_instance_provisioning) at h)))
        | inr (i, n) ↦ elim (Bool-cases (same_end i.status status)) [
          | inl q ↦ ground (arith, rw q at (rw n at (rw (e, finish_instance_provisioning) at h)))
          | inr q ↦ elim (Bool-cases (is_provisioning i.status)) [
            | inr g ↦
                absurd
                  (cc (rw g at (rw q at (rw n at (rw (e, finish_instance_provisioning) at h)))))
            | inl g ↦
                let k =
                  no_conflict
                    (port_conflict public_id (provisioned conf_dir status result now i)
                      db.instances)
                    _ (tt, db')
                    (rw g at (rw q at (rw n at (rw (e, finish_instance_provisioning) at h)))) in
                elim (Bool-cases (is_active status)) [
                  | inl a ↦ activate_provisioned-jobs public_id result now _ db' (rw a at k)
                  | inr a ↦ ground (arith, rw a at k)
                ]
          ]
        ]
      ]
    ]
