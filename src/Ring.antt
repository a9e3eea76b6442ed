-- ===== src/Ring.antt =====
-- ring/: the consistent hash ring in Consul, its readers and the ingesters that register in it.
pub mod Model
pub mod Lookup
pub mod Consul
pub mod Lifecycle
