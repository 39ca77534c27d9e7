-- ===== src/Tenant/Addresses.antt =====
-- IPv4 networks as scripts/tenant_network_allocator.py uses them through Python's `ipaddress`: a
-- first address and the length of the prefix.
use openclaw_manager.Common.{ℕ, zero, suc, ◌+◌, ◌-◌, ◌^◌, Bool, ◌&&◌, List, [], ◌∷◌, leb}

pub record Network : Type 0 where
  pub network_address : ℕ
  pub prefixlen : ℕ

-- The number of addresses under a prefix.
abbrev addresses : ℕ → ℕ
addresses prefixlen = 2 ^ (32 - prefixlen)

abbrev pub broadcast_address : Network → ℕ
broadcast_address net = net.network_address + addresses net.prefixlen - 1

-- Two networks overlap when they have an address in common.
abbrev pub overlaps : Network → Network → Bool
overlaps a b =
    leb a.network_address (broadcast_address b) && leb b.network_address (broadcast_address a)

-- `count` networks of one prefix, one after another from an address.
abbrev networks_from : ℕ → ℕ → ℕ → List Network
networks_from prefixlen zero address = []
networks_from prefixlen (suc count) address =
    record { network_address = address; prefixlen = prefixlen }
    ∷ networks_from prefixlen count (address + addresses prefixlen)

-- `pool.subnets(new_prefix=…)`, where the new prefix is no shorter than the pool's.
abbrev pub subnets : Network → ℕ → List Network
subnets pool new_prefix =
    networks_from new_prefix (2 ^ (new_prefix - pool.prefixlen)) pool.network_address
