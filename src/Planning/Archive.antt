-- ===== src/Planning/Archive.antt =====
-- src/archive/planner.ts: what a dump holds, in which order, and the check of that order against the
-- dependencies of its entries. Texts are lists of UTF-16 code units.
pub mod Maps
pub mod Model
pub mod Plan
pub mod Passes
pub mod Cycles
pub mod Inspect
pub mod Supports
pub mod Keeping
pub mod Planned
pub mod Rounds
pub mod Loops
pub mod Sorted
pub mod Satisfied
pub mod Lookups
pub mod Links
pub mod Acyclic
pub mod Entered
pub mod Valid
pub mod Emitted
pub mod Identity
pub mod Tests
