-- ===== src/Store/Lifecycle/Removal.antt =====
-- What the removal of an instance leaves behind.
use openclaw_manager.Common.{
  ℕ, String, Bool, true, false, ◌&&◌, Option, none, some, List, [], ◌∷◌, ◌==◌, nat_eq, string_eq,
  option_eq, when, delete_where, map, ◌≡◌, ◌≢◌, refl, sym, ap, ◌∙◌, ◌⊎◌, inl, inr, arith, All,
  find-map, find_sound, Bool-cases, Option-cases, eq_of_==, when_field,
}
use mathlib.Core.Option
use openclaw_manager.Store.Rows.{
  Time, Db, Instance, InstanceStatus, provisioning, active, stopped, deleted, failed, RestoreState,
  not_applicable, restorable, incomplete, Member, InstanceCredential, Endpoint, Port, released, Job,
  Operation,
}
use openclaw_manager.Store.Error.{
  Error, ok, err, instance_not_found, only_failed_cleaned, only_restorable_purged,
}
use openclaw_manager.Store.Jobs.{instance_row}
use openclaw_manager.Store.Ports.{
  is_failed, is_deleted, is_restorable, has_port, port_row, has_endpoint,
}
use openclaw_manager.Store.Lifecycle.{
  frees, unlink, remove_instance, purge_failed_instance, purge_deleted_instance,
}

-- No row of the state refers to the instance, and it has no row itself.
abbrev IsForgotten : ℕ → Db → Type 0
IsForgotten id db =
    All (λ (i : Instance). (i.id == id) ≡ false) db.instances
    × All (λ (m : Member). (m.instance_id == id) ≡ false) db.members
    × All (λ (c : InstanceCredential). (c.instance_id == id) ≡ false) db.instance_credentials
    × All (λ (e : Endpoint). (e.instance_id == id) ≡ false) db.endpoints
    × All (λ (p : Port). (p.instance_id == some id) ≡ false) db.ports
    × All (λ (o : Operation). (o.instance_id == some id) ≡ false) db.operations
    × All (λ (j : Job). (j.instance_id == some id) ≡ false) db.jobs

abbrev freed : Time → Port → Port
freed now p = record p { instance_id = none; status = released; released_at = some now }

-- The instance is gone, and its port is released.
abbrev pub IsRemoved : Instance → Time → Db → Db → Type 0
IsRemoved i now db db' =
    IsForgotten i.id db'
    × ((port : ℕ) (p : Port)
        → i.port ≡ some port
        → port_row db port ≡ some p
        → port_row db' port ≡ some (freed now p))

delete_where-All {ℓ} :
    {A : Type ℓ} (q : A → Bool) (xs : List A) → All (λ x. q x ≡ false) (delete_where q xs)
delete_where-All q [] = tt
delete_where-All q (x ∷ xs) = elim (Bool-cases (q x)) [
  | inl e ↦ rw e (delete_where-All q xs)
  | inr e ↦ rw e (e, delete_where-All q xs)
]

unlink_apart : (id : ℕ) (target : Option ℕ) → (unlink id target == some id) ≡ false
unlink_apart id target = elim (Bool-cases (target == some id)) [
  | inl e ↦ rw e refl
  | inr e ↦ rw e e
]

map-All {ℓ κ} :
    {A : Type ℓ} (P : A → Type κ) (f : A → A)
    → ((x : A) → P (f x))
    → (xs : List A) → All P (map f xs)
map-All P f h [] = tt
map-All P f h (x ∷ xs) = (h x, map-All P f h xs)

frees_own :
    (i : Instance) (port : ℕ) (p : Port)
    → i.port ≡ some port
    → has_port port p ≡ true
    → frees i p ≡ true
frees_own i port p e h = ground (arith, e, h, eq_of_== p.port port h)

is_failed_sound : (s : InstanceStatus) → is_failed s ≡ true → s ≡ failed
is_failed_sound failed h = refl
is_failed_sound provisioning h = absurd (cc h)
is_failed_sound active h = absurd (cc h)
is_failed_sound stopped h = absurd (cc h)
is_failed_sound deleted h = absurd (cc h)

deletable_sound :
    (s : InstanceStatus) (r : RestoreState)
    → (is_deleted s && is_restorable r) ≡ true
    → (s ≡ deleted) × (r ≡ restorable)
deletable_sound deleted restorable h = (refl, refl)
deletable_sound deleted not_applicable h = absurd (cc h)
deletable_sound deleted incomplete h = absurd (cc h)
deletable_sound failed r h = absurd (cc h)
deletable_sound provisioning r h = absurd (cc h)
deletable_sound active r h = absurd (cc h)
deletable_sound stopped r h = absurd (cc h)

both :
    {s : InstanceStatus} {r : RestoreState}
    → s ≡ deleted
    → r ≡ restorable
    → (is_deleted s && is_restorable r) ≢ false
both d q f = absurd (cc (rw (d, q) at f))

pub remove_instance-IsRemoved :
    (i : Instance) (now : Time) (db : Db) → IsRemoved i now db (remove_instance i now db)
unfolding remove_instance
remove_instance-IsRemoved i now db = (
  (
    delete_where-All (λ (row : Instance). row.id == i.id) db.instances,
    delete_where-All (λ (m : Member). m.instance_id == i.id) db.members,
    delete_where-All (λ (c : InstanceCredential). c.instance_id == i.id) db.instance_credentials,
    delete_where-All (has_endpoint i.id) db.endpoints,
    map-All _ _ (λ (p : Port). unlink_apart i.id p.instance_id) _,
    map-All _ _ (λ (o : Operation). unlink_apart i.id o.instance_id) db.operations,
    map-All _ _ (λ (j : Job). unlink_apart i.id j.instance_id) db.jobs,
  ),
  λ port p e found.
      let frees_it = frees_own i port p e (find_sound (has_port port) db.ports p found) in
      find-map (has_port port) (λ (r : Port). record r { instance_id = unlink i.id r.instance_id })
        (λ x. refl) _
      ∙ ap (Option.map (λ (r : Port). record r { instance_id = unlink i.id r.instance_id })) (
          find-map (has_port port)
            (when (frees i)
              (λ r. record r { instance_id = none; status = released; released_at = some now }))
            (λ x.
              when_field (λ (r : Port). r.port == port) (frees i)
                (λ r. record r { instance_id = none; status = released; released_at = some now }) x
                refl)
            db.ports)
      ∙ rw found (rw frees_it refl),
)

-- A purge of a failed creation ends well exactly if the instance is there with the status failed.
-- Then no row of the state refers to the instance, and the port that the instance had is released.
-- In all other cases it is an error.
pub purge_failed_instance_outcome :
    (public_id : String) (now : Time) (db : Db)
    → ((i : Instance) × (db' : Db) × (instance_row db public_id ≡ some i)
        × (i.status ≡ failed)
        × (purge_failed_instance public_id now db ≡ ok (tt, db'))
        × IsRemoved i now db db')
      ⊎ ((e : Error) × (purge_failed_instance public_id now db ≡ err e)
          × ((i : Instance) → instance_row db public_id ≡ some i → i.status ≢ failed))
unfolding purge_failed_instance
purge_failed_instance_outcome public_id now db = elim (Option-cases (instance_row db public_id)) [
  | inl e ↦ inr (instance_not_found, rw (e, purge_failed_instance) refl, λ i k. absurd (cc (k, e)))
  | inr (i, e) ↦ elim (Bool-cases (is_failed i.status)) [
    | inl f ↦ inl (
      i,
      remove_instance i now db,
      e,
      is_failed_sound i.status f,
      rw (e, purge_failed_instance) (rw f refl),
      remove_instance-IsRemoved i now db,
    )
    | inr f ↦ inr (
      only_failed_cleaned,
      rw (e, purge_failed_instance) (rw f refl),
      λ j k. λ q.
          let same : j ≡ i = ground (arith, k, e) in
          let t = ap (λ (x : Instance). is_failed x.status) same in
          absurd (cc (sym t ∙ ap is_failed q, f)),
    )
  ]
]

-- A purge of a deleted instance ends well exactly if the instance is there, deleted and restorable.
-- Then no row of the state refers to the instance, and the port that the instance had is released.
-- In all other cases it is an error.
pub purge_deleted_instance_outcome :
    (public_id : String) (now : Time) (db : Db)
    → ((i : Instance) × (db' : Db) × (instance_row db public_id ≡ some i)
        × (i.status ≡ deleted)
        × (i.restore_state ≡ restorable)
        × (purge_deleted_instance public_id now db ≡ ok (tt, db'))
        × IsRemoved i now db db')
      ⊎ ((e : Error) × (purge_deleted_instance public_id now db ≡ err e)
          × ((i : Instance)
              → instance_row db public_id ≡ some i
              → i.status ≡ deleted
              → i.restore_state ≢ restorable))
unfolding purge_deleted_instance
purge_deleted_instance_outcome public_id now db = elim (Option-cases (instance_row db public_id)) [
  | inl e ↦ inr (instance_not_found, rw (e, purge_deleted_instance) refl, λ i k. absurd (cc (k, e)))
  | inr (i, e) ↦ elim (Bool-cases (is_deleted i.status && is_restorable i.restore_state)) [
    | inl f ↦ inl (
      i,
      remove_instance i now db,
      e,
      (deletable_sound i.status i.restore_state f).0,
      (deletable_sound i.status i.restore_state f).1,
      rw (e, purge_deleted_instance) (rw f refl),
      remove_instance-IsRemoved i now db,
    )
    | inr f ↦ inr (
      only_restorable_purged,
      rw (e, purge_deleted_instance) (rw f refl),
      λ j k d. λ q.
          let same : j ≡ i = ground (arith, k, e) in
          let t =
            ap (λ (x : Instance). is_deleted x.status && is_restorable x.restore_state) same in
          both d q (t ∙ f),
    )
  ]
]
