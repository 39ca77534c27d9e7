-- ===== src/Store/Legacy/Lookup.antt =====
-- What is read back after a write under a legacy user id.
use openclaw_manager.Common.{
  ℕ, String, true, false, Option, none, some, ◌==◌, nat_eq, string_eq, option_eq, is_some, find,
  update_where, delete_where, insert, any, ◌≡◌, ◌≢◌, refl, sym, ap, ◌∙◌, subst, inl, inr, arith,
  find-insert, find_sound, find-update_key, find-update_apart, eq_of_==, ==_refl, ==_false,
  Bool-cases, Option-cases,
}
use mathlib.Core.Option
use openclaw_manager.Store.Rows.{Time, Db, User, Instance, active}
use openclaw_manager.Store.Error.{ok, Result-cases}
use openclaw_manager.Store.Ports.{is_deleted, put_endpoint, instance_id_for_legacy_user}
use openclaw_manager.Store.Instances.{unique_violation}
use openclaw_manager.Store.Users.{ensure_legacy_user, insert_user, has_name, is_identity}
use openclaw_manager.Store.Legacy.{
  LegacyInstance, is_legacy, get_instance, resolved_restore_state, legacy_columns, blank_row,
  put_legacy_instance, put_legacy_endpoint, upsert_instance,
}

insert_user-instances :
    (public_id username normalized : String) (db db' : Db) (u : User)
    → insert_user public_id username normalized active db ≡ ok (u, db')
    → db'.instances ≡ db.instances
unfolding insert_user
insert_user-instances public_id username normalized db db' u h =
    elim (Bool-cases (any (λ (x : User). x.public_id == public_id) db.users)) [
      | inl e ↦ absurd (cc (rw (e, insert_user) at h))
      | inr e ↦ elim (Bool-cases (any (has_name normalized) db.users)) [
        | inl n ↦ absurd (cc (rw n at (rw (e, insert_user) at h)))
        | inr n ↦ let k = rw n at (rw (e, insert_user) at h) in ground (arith, k)
      ]
    ]

ensure_legacy_user-instances :
    (normalize : String → String) (public_id username : String) (db db' : Db) (id : ℕ)
    → ensure_legacy_user normalize public_id username db ≡ ok (id, db')
    → db'.instances ≡ db.instances
unfolding ensure_legacy_user
ensure_legacy_user-instances normalize public_id username db db' id h =
    elim (Option-cases (find (is_identity "legacy" username) db.identities)) [
      | inr (i, e) ↦ elim (Option-cases (find (has_name (normalize username)) db.users)) [
        | inl n ↦ let k = rw n at (rw (e, ensure_legacy_user) at h) in ground (arith, k)
        | inr (u, n) ↦ elim (Bool-cases (u.id == i.user_id)) [
          | inl s ↦ let k = rw s at (rw n at (rw (e, ensure_legacy_user) at h)) in ground (arith, k)
          | inr s ↦ absurd (cc (rw s at (rw n at (rw (e, ensure_legacy_user) at h))))
        ]
      ]
      | inl e ↦ elim (Option-cases (find (has_name (normalize username)) db.users)) [
        | inr (u, n) ↦ elim (Bool-cases (u.username == username)) [
          | inl s ↦ let k = rw s at (rw n at (rw (e, ensure_legacy_user) at h)) in ground (arith, k)
          | inr s ↦ absurd (cc (rw s at (rw n at (rw (e, ensure_legacy_user) at h))))
        ]
        | inl n ↦
            elim (Result-cases (insert_user public_id username (normalize username) active db)) [
              | inr (x, s) ↦ absurd (cc (rw s at (rw n at (rw (e, ensure_legacy_user) at h))))
              | inl ((u, d), s) ↦
                  let k = rw s at (rw n at (rw (e, ensure_legacy_user) at h)) in
                  let same : db'.instances ≡ d.instances = ground (arith, k) in
                  same ∙ insert_user-instances public_id username (normalize username) db d u s
            ]
      ]
    ]

put_legacy_endpoint-instances :
    (new : LegacyInstance) (db : Db) → (put_legacy_endpoint new db).instances ≡ db.instances
unfolding put_legacy_endpoint put_endpoint
put_legacy_endpoint-instances new db =
    elim (Option-cases (instance_id_for_legacy_user new.user_id db)) [
      | inl e ↦ rw (e, put_legacy_endpoint) refl
      | inr (id, e) ↦ elim (Option-cases new.port) [
        | inr (port, n) ↦ rw (e, put_legacy_endpoint) (rw n refl)
        | inl n ↦ elim (Bool-cases (is_deleted new.status)) [
          | inl d ↦ rw (e, put_legacy_endpoint) (rw n (rw d refl))
          | inr d ↦ rw (e, put_legacy_endpoint) (rw n (rw d refl))
        ]
      ]
    ]

-- The row under the legacy id that a write leaves.
abbrev pub IsWritten : LegacyInstance → Option Instance → Instance → Type 0
IsWritten new existing row =
    (row.status ≡ new.status)
    × (row.port ≡ new.port)
    × (row.data_path ≡ new.data_path)
    × (row.restore_state ≡ resolved_restore_state new existing)
    × (row.legacy_user_id ≡ some new.user_id)

module _ (public_id : String) (new : LegacyInstance) (owner_id : ℕ) (now : Time) where
  written_first : Db → Instance
  written_first db =
      legacy_columns new owner_id (resolved_restore_state new none) now
        (blank_row db.next_instance_id public_id new owner_id now)

  written_over : Instance → Instance
  written_over i = legacy_columns new owner_id (resolved_restore_state new (some i)) now i

  inserted-rows :
      (db db' : Db)
      → find (is_legacy new.user_id) db.instances ≡ none
      → put_legacy_instance public_id new owner_id now db ≡ ok (tt, db')
      → db'.instances ≡ insert (written_first db) db.instances
  unfolding put_legacy_instance written_first
  inserted-rows db db' e h =
      elim (Bool-cases (is_some (unique_violation (written_first db) db.instances))) [
        | inl v ↦ absurd (cc (rw v at (rw (e, put_legacy_instance) at h)))
        | inr v ↦ let k = rw v at (rw (e, put_legacy_instance) at h) in ground (arith, k)
      ]

  updated-rows :
      (db db' : Db) (i : Instance)
      → find (is_legacy new.user_id) db.instances ≡ some i
      → put_legacy_instance public_id new owner_id now db ≡ ok (tt, db')
      → db'.instances
        ≡ update_where
            (is_legacy new.user_id)
            (legacy_columns new owner_id (resolved_restore_state new (some i)) now)
            db.instances
  unfolding put_legacy_instance written_over
  updated-rows db db' i e h =
      elim (Bool-cases (
        is_some (
          unique_violation (written_over i) (delete_where (is_legacy new.user_id) db.instances)))) [
            | inl v ↦ absurd (cc (rw v at (rw (e, put_legacy_instance) at h)))
            | inr v ↦ let k = rw v at (rw (e, put_legacy_instance) at h) in ground (arith, k)
          ]

  apart :
      (k : String) (i : Instance)
      → k ≢ new.user_id
      → is_legacy new.user_id i ≡ true
      → is_legacy k i ≡ false
  apart k i ne h =
      ==_false i.legacy_user_id (some k)
        (λ e. ne (cc (e, eq_of_== i.legacy_user_id (some new.user_id) h)))

  put_legacy_instance-rows :
      (db db' : Db)
      → put_legacy_instance public_id new owner_id now db ≡ ok (tt, db')
      → ((row : Instance) × (get_instance new.user_id db' ≡ some row)
          × IsWritten new (get_instance new.user_id db) row)
        × ((k : String) → k ≢ new.user_id → get_instance k db' ≡ get_instance k db)
  unfolding get_instance legacy_columns written_first written_over
  put_legacy_instance-rows db db' h =
      elim (Option-cases (find (is_legacy new.user_id) db.instances)) [
        | inl e ↦
            let rows = inserted-rows db db' e h in
            let mine : is_legacy new.user_id (written_first db) ≡ true =
              ==_refl (some new.user_id) in
            (
              (
                written_first db,
                ap (find (is_legacy new.user_id)) rows
                    ∙ find-insert (is_legacy new.user_id) (written_first db) db.instances
                    ∙ rw e (rw mine refl),
                (refl, refl, refl, ap (resolved_restore_state new) (sym e), refl),
              ),
              λ k ne.
                  let not_mine = apart k (written_first db) ne mine in
                  ap (find (is_legacy k)) rows
                  ∙ find-insert (is_legacy k) (written_first db) db.instances
                  ∙ ground (arith, not_mine),
            )
        | inr (i, e) ↦
            let rows = updated-rows db db' i e h in
            let f = legacy_columns new owner_id (resolved_restore_state new (some i)) now in
            let legacy =
              eq_of_== i.legacy_user_id (some new.user_id)
                (find_sound (is_legacy new.user_id) db.instances i e) in
            (
              (
                written_over i,
                ap (find (is_legacy new.user_id)) rows
                    ∙ find-update_key (is_legacy new.user_id) f (λ x t. t) db.instances
                    ∙ ap (Option.map f) e,
                (refl, refl, refl, ap (resolved_restore_state new) (sym e), legacy),
              ),
              λ k ne.
                  ap (find (is_legacy k)) rows
                  ∙ find-update_apart (is_legacy k) (is_legacy new.user_id) f
                      (λ x t. (apart k x ne t, apart k x ne t)) db.instances,
            )
      ]

-- After a write under a legacy user id that ends well, a read by that id finds a row with the
-- written status, port and data path. Its restore state is the one that was given, else the one
-- that the row had before, else what the status of a new row says. A read by any other id finds
-- what it found.
pub get_instance-upsert_instance :
    (normalize : String → String) (user_public_id public_id : String) (new : LegacyInstance)
    (now : Time) (db db' : Db)
    → upsert_instance normalize user_public_id public_id new now db ≡ ok (tt, db')
    → ((row : Instance) × (get_instance new.user_id db' ≡ some row)
        × IsWritten new (get_instance new.user_id db) row)
      × ((k : String) → k ≢ new.user_id → get_instance k db' ≡ get_instance k db)
unfolding upsert_instance get_instance
get_instance-upsert_instance normalize user_public_id public_id new now db db' h =
    elim (Result-cases (ensure_legacy_user normalize user_public_id new.user_id db)) [
      | inr (x, e) ↦ absurd (cc (rw (e, upsert_instance) at h))
      | inl ((owner_id, d), e) ↦
          elim (Result-cases (put_legacy_instance public_id new owner_id now d)) [
            | inr (x, n) ↦ absurd (cc (rw n at (rw (e, upsert_instance) at h)))
            | inl ((_, d'), n) ↦
                let final = rw n at (rw (e, upsert_instance) at h) in
                let last : db'.instances ≡ (put_legacy_endpoint new d').instances =
                  ground (arith, final) in
                let after = last ∙ put_legacy_endpoint-instances new d' in
                let before =
                  ensure_legacy_user-instances normalize user_public_id new.user_id db d owner_id
                    e in
                let ((row, found, written), others) =
                  put_legacy_instance-rows public_id new owner_id now d d' n in
                (
                  (
                    row,
                    ap (find (is_legacy new.user_id)) after ∙ found,
                    subst (λ rows. IsWritten new (find (is_legacy new.user_id) rows) row) before
                        written,
                  ),
                  λ k ne.
                      ap (find (is_legacy k)) after ∙ others k ne ∙ ap (find (is_legacy k)) before,
                )
          ]
    ]
