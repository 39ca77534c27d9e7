-- ===== src/Tenant/Tests.antt =====
-- A plan for two tenants in a small pool, of which a part is excluded and a part is in use.
use openclaw_manager.Common.{
  ℕ, String, Option, none, some, List, [], ◌∷◌, map, ◌≡◌, refl, All, ◌==◌, string_eq, if◌then◌else◌,
}
use openclaw_manager.Tenant.Addresses.{Network}
use openclaw_manager.Tenant.Allocation.{
  Inspected, passed, refused, Planned, Request, build_plan, validate_pool, check_present, plan_rest,
  validate_existing, validate_subnet, network_subnets,
}
use openclaw_manager.Tenant.Allocation.Plan.{IsDisjoint, IsFree, created, build_plan_sound}

abbrev net : ℕ → ℕ → Network
net address prefixlen = record { network_address = address; prefixlen = prefixlen }

-- The only CIDR text of the sample.
abbrev read_cidr : String → Option Network
read_cidr _ = some (net 16 29)

-- The first tenant has its network already.
abbrev inspected : String → Option Inspected
inspected name =
    if name == "tenant-a"
    then some (record { tenant_label = some name; configs = none ∷ some "0.0.0.16/29" ∷ [] })
    else none

abbrev in_use : List Network
in_use = net 8 29 ∷ net 16 29 ∷ []

abbrev request : Request
request = record {
  pool = net 0 26;
  excluded = net 0 30 ∷ [];
  subnet_prefix = 29;
  networks = "tenant-a" ∷ "tenant-b" ∷ [];
}

abbrev planned : List Planned
planned = elim (build_plan read_cidr inspected [] in_use request) [
  | passed plan ↦ plan
  | refused _ ↦ []
]

build_plan_sound_example :
    (map (λ (p : Planned). p.network) planned ≡ request.networks)
    × IsDisjoint (created planned)
    × All (IsFree request.excluded in_use) (created planned)
unfolding build_plan validate_pool check_present validate_existing validate_subnet network_subnets
    plan_rest
build_plan_sound_example = build_plan_sound read_cidr inspected [] in_use request planned refl
