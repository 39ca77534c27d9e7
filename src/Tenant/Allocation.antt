-- ===== src/Tenant/Allocation.antt =====
-- `network_subnets`, `validate_pool`, `validate_existing` and `build_plan` of
-- scripts/tenant_network_allocator.py. What Docker and the host answer is an argument: `inspect`
-- for `inspect_network`, the host routes, and the subnets of all Docker networks. `ip_network`
-- stands for Python's parser of networks; it gives none for a text that raises, and for IPv6.
pub mod Plan
use openclaw_manager.Common.{
  ℕ, suc, String, Bool, true, false, not, ◌||◌, Option, none, some, List, [], ◌∷◌, ◌==◌, nat_eq,
  string_eq, option_eq, if◌then◌else◌, any, find, insert, select, length, ltb, leb,
}
use openclaw_manager.Tenant.Addresses.{Network, broadcast_address, overlaps, subnets}

-- The answer of `docker network inspect`: the label of the tenant, and the field "Subnet" of every
-- address configuration.
pub record Inspected : Type 0 where
  pub tenant_label : Option String
  pub configs : List (Option String)

pub data AllocationError : Type 0 where
  prefix_larger_than_pool prefix_too_long duplicate_names : AllocationError
  pool_overlaps_route : Network → String → AllocationError
  not_owned not_one_subnet outside_pool unexpected_prefix : String → AllocationError
  overlaps_excluded : String → Network → AllocationError
  overlaps_route : String → Network → String → AllocationError
  -- the network that was being planned, and the number of new subnets needed at least
  no_capacity : String → ℕ → AllocationError

pub data Checked {ℓ} (A : Type ℓ) : Type ℓ where
  passed : A → Checked A
  refused : AllocationError → Checked A

abbrev Route : Type 0
Route = Network × String

unfoldable pub network_subnets : (String → Option Network) → List (Option String) → List Network
network_subnets ip_network [] = []
network_subnets ip_network (none ∷ configs) = network_subnets ip_network configs
network_subnets ip_network (some value ∷ configs) =
    let rest = network_subnets ip_network configs in
    if value == "" then rest else elim (ip_network value) [ none ↦ rest | some net ↦ net ∷ rest ]

unfoldable pub validate_pool : Network → ℕ → List Route → Checked (Unit {0})
validate_pool pool subnet_prefix host_routes =
    if ltb subnet_prefix pool.prefixlen
    then refused prefix_larger_than_pool
    else if ltb 30 subnet_prefix
    then refused prefix_too_long
    else elim (find (λ (r : Route). overlaps pool r.0) host_routes) [
      | none ↦ passed tt
      | some (route, device) ↦ refused (pool_overlaps_route route device)
    ]

abbrev is_outside : Network → Network → Bool
is_outside subnet pool =
    not (leb pool.network_address subnet.network_address)
    || not (leb (broadcast_address subnet) (broadcast_address pool))

-- The checks on the one subnet of a network that is there.
unfoldable pub validate_subnet :
    String → Network → ℕ → List Network → List Route → Network → Checked Network
validate_subnet network pool subnet_prefix excluded host_routes subnet =
    if is_outside subnet pool
    then refused (outside_pool network)
    else if not (subnet.prefixlen == subnet_prefix)
    then refused (unexpected_prefix network)
    else elim (find (overlaps subnet) excluded) [
      | some blocked ↦ refused (overlaps_excluded network blocked)
      | none ↦ elim (find (λ (r : Route). overlaps subnet r.0) host_routes) [
        | some (route, device) ↦ refused (overlaps_route network route device)
        | none ↦ passed subnet
      ]
    ]

unfoldable pub validate_existing :
    (String → Option Network)
    → String
    → Inspected
    → Network
    → ℕ
    → List Network
    → List Route
    → Checked Network
unfolding network_subnets validate_subnet
validate_existing ip_network network inspected pool subnet_prefix excluded host_routes =
    if not (inspected.tenant_label == some network)
    then refused (not_owned network)
    else elim (network_subnets ip_network inspected.configs) [
      | [] ↦ refused (not_one_subnet network)
      | subnet ∷ more ↦ elim more [
        | [] ↦ validate_subnet network pool subnet_prefix excluded host_routes subnet
        | _ ∷ _ ↦ refused (not_one_subnet network)
      ]
    ]

-- The third component of a planned network.
pub data PlanStatus : Type 0 where
  existing create : PlanStatus

pub record Planned : Type 0 where
  pub network : String
  pub subnet : Network
  pub status : PlanStatus

abbrev pub is_create : Planned → Bool
is_create p = elim p.status [ existing ↦ false | create ↦ true ]

-- A candidate that the inner loop passes over.
abbrev is_taken : List Network → List Network → List Network → Network → Bool
is_taken excluded used reserved candidate =
    any (overlaps candidate) excluded
    || any (overlaps candidate) used
    || any (overlaps candidate) reserved

abbrev named : String → String × Network → Bool
named network row = row.0 == network

-- The loop over the requested networks, after `planned` and `reserved`.
unfoldable pub plan_rest :
    List (String × Network)
    → List Network
    → List Network
    → List Network
    → List String
    → List Planned
    → List Network
    → Checked (List Planned)
plan_rest present candidates excluded used [] planned reserved = passed planned
plan_rest present candidates excluded used (network ∷ rest) planned reserved =
    elim (find (named network) present) [
      | some (_, subnet) ↦
          plan_rest present candidates excluded used rest
            (insert (record { network = network; subnet = subnet; status = existing }) planned)
            reserved
      | none ↦ elim (find (λ c. not (is_taken excluded used reserved c)) candidates) [
        | none ↦ refused (no_capacity network (suc (length (select is_create planned))))
        | some candidate ↦
            plan_rest present candidates excluded used rest
              (insert (record { network = network; subnet = candidate; status = create }) planned)
              (insert candidate reserved)
      ]
    ]

-- `validate_existing` of every requested network that is there.
unfoldable pub check_present :
    (String → Option Network)
    → (String → Option Inspected)
    → Network
    → ℕ
    → List Network
    → List Route
    → List String
    → Checked (List (String × Network))
unfolding validate_existing
check_present ip_network inspect pool subnet_prefix excluded host_routes [] = passed []
check_present ip_network inspect pool subnet_prefix excluded host_routes (network ∷ rest) =
    let others = check_present ip_network inspect pool subnet_prefix excluded host_routes rest in
    elim (inspect network) [
      | none ↦ others
      | some inspected ↦
          elim (validate_existing ip_network network inspected pool subnet_prefix excluded
            host_routes) [
              | refused e ↦ refused e
              | passed subnet ↦ elim others [
                | refused e ↦ refused e
                | passed more ↦ passed ((network, subnet) ∷ more)
              ]
            ]
    ]

abbrev has_duplicates : List String → Bool
has_duplicates [] = false
has_duplicates (name ∷ names) = any (λ n. n == name) names || has_duplicates names

-- The arguments of the command, with the CIDRs parsed.
pub record Request : Type 0 where
  pub pool : Network
  pub excluded : List Network
  pub subnet_prefix : ℕ
  pub networks : List String

unfoldable pub build_plan :
    (String → Option Network)
    → (String → Option Inspected)
    → List Route
    → List Network
    → Request
    → Checked (List Planned)
unfolding validate_pool check_present plan_rest
build_plan ip_network inspect host_routes used args =
    if has_duplicates args.networks
    then refused duplicate_names
    else elim (validate_pool args.pool args.subnet_prefix host_routes) [
      | refused e ↦ refused e
      | passed _ ↦
          elim (check_present ip_network inspect args.pool args.subnet_prefix args.excluded
            host_routes args.networks) [
              | refused e ↦ refused e
              | passed present ↦
                  plan_rest present (subnets args.pool args.subnet_prefix) args.excluded used
                    args.networks [] []
            ]
    ]
