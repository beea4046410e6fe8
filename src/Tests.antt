-- ===== src/Tests.antt =====
-- Concrete instances of the interfaces, and the theorems applied to concrete inputs.
mod Instances
mod Proxies
mod Transfers
mod Pools
mod Health
mod Deliveries
mod Streams
mod Heads
mod Tunnels
mod Tors
