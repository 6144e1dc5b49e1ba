-- ===== src/Tests.antt =====
-- The theorems applied to concrete data.
mod Responses
mod Calls
mod Toy
mod Indexed
mod Clocks
mod Codecs
mod Decisions
mod Fences
mod Fenced
mod Partitions
mod Stores
mod Ledgers
mod Sources
mod Wires
mod Rounds
mod Triggers
mod Registries
mod Definitions
mod Stocks
mod Fixtures
mod Admissions
mod Boundaries
mod Bundles
mod Policies
