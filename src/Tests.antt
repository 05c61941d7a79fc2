-- ===== src/Tests.antt =====
-- Tests of the components, and the theorems at concrete inputs.
mod States
mod Threads
mod Clocks
mod Sets
mod Caches
mod Analysis
mod Memory
mod Mappings
mod Configuration
mod Creation
mod Runs
