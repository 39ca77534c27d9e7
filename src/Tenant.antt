-- ===== src/Tenant.antt =====
-- scripts/tenant_network_allocator.py: the plan of one Docker network for each tenant.
pub mod Addresses
pub mod Allocation
pub mod Tests
