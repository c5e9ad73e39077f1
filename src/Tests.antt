-- ===== src/Tests.antt =====
-- Runs of the code at concrete values, and each theorem of the development at one.
mod Data
mod Stores
mod Tiers
mod Nodes
mod Caches
mod Running
mod Transport
mod Starting
mod Links
