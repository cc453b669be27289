-- ===== src/Tests.antt =====
-- The theorems applied to small systems.
mod Samples
mod Gateways
mod Codecs
mod Hosts
mod Engines
mod Caches
