-- ===== src/Tenant/Allocation/Plan.antt =====
-- What a plan of tenant networks holds.
use openclaw_manager.Common.{
  String, Bool, true, false, not, Option, List, [], ◌∷◌, ◌++◌, nat_eq, string_eq, if◌then◌else◌,
  find, any, insert, map, select, ◌≡◌, refl, sym, ap, ◌∙◌, subst, ◌⊎◌, inl, inr, arith, All,
  All-snoc, find_sound, Bool-cases, Option-cases,
}
use openclaw_manager.Tenant.Addresses.{Network, overlaps, subnets}
use openclaw_manager.Tenant.Allocation.{
  Inspected, AllocationError, Checked, passed, refused, Route, validate_pool, check_present,
  has_duplicates, Planned, existing, create, is_create, is_taken, named, plan_rest, Request,
  build_plan,
}

-- No two networks of the list have an address in common.
abbrev pub IsDisjoint : List Network → Type 0
IsDisjoint [] = Unit
IsDisjoint (net ∷ nets) = All (λ later. overlaps later net ≡ false) nets × IsDisjoint nets

abbrev pub created : List Planned → List Network
created plan = map (λ (p : Planned). p.subnet) (select is_create plan)

-- A subnet that was free of the excluded networks and of the networks in use.
abbrev pub IsFree : List Network → List Network → Network → Type 0
IsFree excluded used net = (any (overlaps net) excluded ≡ false) × (any (overlaps net) used ≡ false)

Checked-cases {ℓ} :
    {A : Type ℓ} (r : Checked A)
    → ((a : A) × (r ≡ passed a)) ⊎ ((e : AllocationError) × (r ≡ refused e))
Checked-cases (passed a) = inl (a, refl)
Checked-cases (refused e) = inr (e, refl)

any-All :
    (q : Network → Bool) (nets : List Network) → any q nets ≡ false → All (λ n. q n ≡ false) nets
any-All q [] _ = tt
any-All q (n ∷ nets) h = elim (Bool-cases (q n)) [
  | inl e ↦ absurd (cc (rw e at h))
  | inr e ↦ (e, any-All q nets (rw e at h))
]

IsDisjoint-snoc :
    (nets : List Network) (net : Network)
    → IsDisjoint nets
    → All (λ n. overlaps net n ≡ false) nets
    → IsDisjoint (insert net nets)
IsDisjoint-snoc [] net _ _ = (tt, tt)
IsDisjoint-snoc (n ∷ nets) net (apart, disjoint) (h, hs) = (
  All-snoc (λ later. overlaps later n ≡ false) nets net apart h,
  IsDisjoint-snoc nets net disjoint hs,
)

created-snoc :
    (plan : List Planned) (p : Planned)
    → created (insert p plan)
      ≡ (if is_create p then insert p.subnet (created plan) else created plan)
created-snoc [] p = elim (Bool-cases (is_create p)) [ inl e ↦ rw e refl | inr e ↦ rw e refl ]
created-snoc (q ∷ plan) p = elim (Bool-cases (is_create q)) [
  | inl e ↦ elim (Bool-cases (is_create p)) [
    | inl f ↦ rw (e, f) (ap (λ nets. q.subnet ∷ nets) (created-snoc plan p ∙ rw f refl))
    | inr f ↦ rw (e, f) (ap (λ nets. q.subnet ∷ nets) (created-snoc plan p ∙ rw f refl))
  ]
  | inr e ↦ rw e (created-snoc plan p)
]

names-snoc :
    (plan : List Planned) (p : Planned)
    → map (λ (x : Planned). x.network) (insert p plan)
      ≡ insert p.network (map (λ (x : Planned). x.network) plan)
names-snoc [] p = refl
names-snoc (q ∷ plan) p = ap (λ names. q.network ∷ names) (names-snoc plan p)

append-snoc : (xs : List String) (y : String) (ys : List String) → insert y xs ++ ys ≡ xs ++ y ∷ ys
append-snoc [] y ys = refl
append-snoc (x ∷ xs) y ys = ap (λ zs. x ∷ zs) (append-snoc xs y ys)

append_nil : (xs : List String) → xs ++ [] ≡ xs
append_nil [] = refl
append_nil (x ∷ xs) = ap (λ zs. x ∷ zs) (append_nil xs)

module _ (present : List (String × Network)) (candidates excluded used : List Network) where
  -- What holds of the plan while it grows.
  abbrev IsSound : List Planned → List Network → Type 0
  IsSound planned reserved =
      (created planned ≡ reserved) × IsDisjoint reserved × All (IsFree excluded used) reserved

  free :
      (reserved : List Network) (c : Network)
      → not (is_taken excluded used reserved c) ≡ true
      → IsFree excluded used c × (any (overlaps c) reserved ≡ false)
  free reserved c h = ((ground arith, ground arith), ground arith)

  IsSound-existing :
      (planned : List Planned) (reserved : List Network) (network : String) (subnet : Network)
      → IsSound planned reserved
      → IsSound
          (insert (record { network = network; subnet = subnet; status = existing }) planned)
          reserved
  IsSound-existing planned reserved network subnet (c, d, f) = (
    created-snoc planned (record { network = network; subnet = subnet; status = existing }) ∙ c,
    d,
    f,
  )

  IsSound-create :
      (planned : List Planned) (reserved : List Network) (network : String) (c : Network)
      → not (is_taken excluded used reserved c) ≡ true
      → IsSound planned reserved
      → IsSound
          (insert (record { network = network; subnet = c; status = create }) planned)
          (insert c reserved)
  IsSound-create planned reserved network c h (same, disjoint, frees) =
      let (ok, apart) = free reserved c h in
      (
        created-snoc planned (record { network = network; subnet = c; status = create })
            ∙ ap (insert c) same,
        IsDisjoint-snoc reserved c disjoint (any-All (overlaps c) reserved apart),
        All-snoc (IsFree excluded used) reserved c frees ok,
      )

  plan_rest_sound :
      (names : List String) (planned : List Planned) (reserved : List Network) (plan : List Planned)
      → IsSound planned reserved
      → plan_rest present candidates excluded used names planned reserved ≡ passed plan
      → IsDisjoint (created plan)
        × All (IsFree excluded used) (created plan)
        × (map (λ (p : Planned). p.network) plan
            ≡ map (λ (p : Planned). p.network) planned ++ names)
  unfolding plan_rest
  plan_rest_sound [] planned reserved plan (same, d, f) h =
      let end : planned ≡ plan = cc h in
      let here =
        subst (λ nets. IsDisjoint nets × All (IsFree excluded used) nets) (sym same) (d, f) in
      subst
        (λ p.
          IsDisjoint (created p)
          × All (IsFree excluded used) (created p)
          × (map (λ (x : Planned). x.network) p ≡ map (λ (x : Planned). x.network) planned ++ []))
        end (here.0, here.1, sym (append_nil (map (λ (x : Planned). x.network) planned)))
  plan_rest_sound (n ∷ names) planned reserved plan s h =
      elim (Option-cases (find (named n) present)) [
        | inr ((k, subnet), e) ↦
            let p : Planned = record { network = n; subnet = subnet; status = existing } in
            let (d, f, all_names) =
              plan_rest_sound names (insert p planned) reserved plan
                (IsSound-existing planned reserved n subnet s) (rw (e, plan_rest) at h) in
            (d, f, all_names ∙ ap (λ t. t ++ names) (names-snoc planned p) ∙ append-snoc _ n names)
        | inl e ↦
            elim (Option-cases (find (λ c. not (is_taken excluded used reserved c)) candidates)) [
              | inl q ↦ absurd (cc (rw q at (rw (e, plan_rest) at h)))
              | inr (c, q) ↦
                  let p : Planned = record { network = n; subnet = c; status = create } in
                  let t =
                    find_sound (λ c. not (is_taken excluded used reserved c)) candidates c q in
                  let (d, f, all_names) =
                    plan_rest_sound names (insert p planned) (insert c reserved) plan
                      (IsSound-create planned reserved n c t s)
                      (rw q at (rw (e, plan_rest) at h)) in
                  (
                    d,
                    f,
                    all_names ∙ ap (λ t. t ++ names) (names-snoc planned p) ∙ append-snoc _ n names,
                  )
            ]
      ]

-- A plan that is found has one entry for each requested network, in the order of the request. The
-- subnets of the networks to create overlap no excluded network and no network in use, and no two
-- of them overlap each other.
pub build_plan_sound :
    (ip_network : String → Option Network) (inspect : String → Option Inspected)
    (host_routes : List Route) (used : List Network) (args : Request) (plan : List Planned)
    → build_plan ip_network inspect host_routes used args ≡ passed plan
    → (map (λ (p : Planned). p.network) plan ≡ args.networks)
      × IsDisjoint (created plan)
      × All (IsFree args.excluded used) (created plan)
unfolding build_plan
build_plan_sound ip_network inspect host_routes used args plan h =
    elim (Bool-cases (has_duplicates args.networks)) [
      | inl e ↦ absurd (cc (rw (e, build_plan) at h))
      | inr e ↦ elim (Checked-cases (validate_pool args.pool args.subnet_prefix host_routes)) [
        | inr (x, v) ↦ absurd (cc (rw v at (rw (e, build_plan) at h)))
        | inl (_, v) ↦
            elim (Checked-cases (
              check_present ip_network inspect args.pool args.subnet_prefix args.excluded
                host_routes args.networks)) [
                  | inr (x, k) ↦ absurd (cc (rw k at (rw v at (rw (e, build_plan) at h))))
                  | inl (present, k) ↦
                      let (d, f, names) =
                        plan_rest_sound present (subnets args.pool args.subnet_prefix) args.excluded
                          used args.networks [] [] plan (refl, tt, tt)
                          (rw k at (rw v at (rw (e, build_plan) at h))) in
                      (names, d, f)
                ]
      ]
    ]
