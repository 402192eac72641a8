-- ===== src/Tests.antt =====
-- Concrete external code, and each result at a concrete input.
mod Concrete
mod Enforcement
mod Paths
mod Gateways
mod Generations
mod Policies
mod Keys
mod Tunnels
mod Brokers
mod Rosters
